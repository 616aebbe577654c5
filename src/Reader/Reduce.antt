-- ===== src/Reader/Reduce.antt =====
-- `getReduced`, `translateStack` and `getTotalCount` of ProfileData.java: the profile by the names of
-- the methods.
pub mod Paths
pub mod Profiles
use javaprofiler.Base.{
  ℕ, ◌+◌, ◌%◌, ◌^◌, to_word, Bool, false, ◌||◌, Option, none, some, List, [], ◌∷◌, ◌++◌, list_eq,
  if◌then◌else◌,
}
use javaprofiler.Reader.{Observation}
use javaprofiler.Reader.Analyze.{LocationInfo, find, update, ◌>>=◌}

-- `seen.contains(e)`
unfoldable pub contains : List (List ℕ) → List ℕ → Bool
contains [] e = false
contains (s ∷ seen) e = list_eq s e || contains seen e

-- The loop over the translated stack: a name that was seen is skipped.
unfoldable pub reduce_from : List (List ℕ) → List (List ℕ) → List (List ℕ) → List (List ℕ)
reduce_from seen path [] = path
reduce_from seen path (e ∷ translated) =
    let skipped = reduce_from seen path translated in
    let added = reduce_from (e ∷ seen) (path ++ (e ∷ [])) translated in
    if contains seen e then skipped else added

-- The empty name counts as seen.
unfoldable pub reduced_path : List (List ℕ) → List (List ℕ)
reduced_path translated = reduce_from ([] ∷ []) [] translated

-- `get_method_name` is `getMethodName(location, false)`, which a subclass overrides. `none` is an
-- exception.
module _ (get_method_name : LocationInfo → Option (List ℕ)) where
  -- `getLocation` makes the locations that are missing.
  unfoldable pub translate_stack :
      List ℕ → List LocationInfo → Option (List (List ℕ) × List LocationInfo)
  translate_stack [] ls = some ([], ls)
  translate_stack (pc ∷ pcs) ls =
      let rest = translate_stack pcs (update pc (λ l. l) ls) in
      get_method_name (find pc ls) >>= λ method. rest >>= λ r. some (method ∷ r.0, r.1)

  -- The loop over the observations. The keys of the hash map are arrays, which Java compares by
  -- identity: the array of an observation is a new key, whose count was 0.
  unfoldable pub reduce_observations :
      List (List (List ℕ) × ℕ)
      → List Observation
      → List LocationInfo
      → Option (List (List (List ℕ) × ℕ) × List LocationInfo)
  reduce_observations result [] ls = some (result, ls)
  reduce_observations result (o ∷ os) ls = translate_stack o.stack ls >>= λ t.
      reduce_observations (result ++ ((reduced_path t.0, (0 + to_word o.count) % 2 ^ 64) ∷ [])) os
        t.1

  unfoldable pub get_reduced :
      List Observation → List LocationInfo → Option (List (List (List ℕ) × ℕ) × List LocationInfo)
  get_reduced os ls = reduce_observations [] os ls

unfoldable pub total_count_from : ℕ → List Observation → ℕ
total_count_from n [] = n
total_count_from n (o ∷ os) = total_count_from ((n + to_word o.count) % 2 ^ 64) os

unfoldable pub get_total_count : List Observation → ℕ
get_total_count os = total_count_from 0 os
