-- ===== src/Reader/Reduce/Profiles.antt =====
-- The profiles that JvmAgent.java and Main.java make of the reduced profile.
use javaprofiler.Base.{
  ℕ, ◌+◌, ◌%◌, ◌^◌, ◌<◌, ◌≡◌, refl, ap, ◌∙◌, to_word, to_word-lt, Bool-cases, true, false, inl, inr,
  Option, some, List, [], ◌∷◌, ◌++◌, append-nil, append_assoc, All, arith, ◌==◌, if◌then◌else◌,
  list_eq,
}
use mathlib.Core.List.{map}
use javaprofiler.ProfilerUtils.{
  text_equals, get_flat_profile, get_cumulative_profile, total_profile,
}
use javaprofiler.ProfilerUtils.Charges.{
  count_of, cumulative_total, charged, total_profile-get_flat_profile, get_cumulative_profile-count,
}
use javaprofiler.Reader.{Observation}
use javaprofiler.Reader.Analyze.{LocationInfo, find, update, find-update}
use javaprofiler.Reader.Reduce.{
  contains, reduced_path, translate_stack, reduce_observations, get_reduced, total_count_from,
  get_total_count,
}
use javaprofiler.Reader.Reduce.Paths.{is_visible, places-reduced_path, reduced_path-IsCons}

find-pc : (q : ℕ) (ls : List LocationInfo) → (find q ls).pc ≡ q
unfolding find
find-pc q [] = refl
find-pc q (l ∷ ls) = ground (arith, find-pc q ls)

-- The locations that `getLocation` adds have no counts.
abbrev pub SameCounts : List LocationInfo → List LocationInfo → Type 0
SameCounts ls ls' = (q : ℕ) → find q ls' ≡ find q ls

update-SameCounts : (pc : ℕ) (ls : List LocationInfo) → SameCounts ls (update pc (λ l. l) ls)
update-SameCounts pc ls q =
    find-update pc q (λ l. l) ls (λ l. refl)
    ∙ elim (Bool-cases (pc == q)) [ inl same ↦ rw same refl | inr other ↦ rw other refl ]

-- The sum of the counts of the observations whose names have `q` among them.
unfoldable pub count_with : (ℕ → List ℕ) → List ℕ → List Observation → ℕ
count_with name q [] = 0
count_with name q (o ∷ os) =
    (if contains (map name o.stack) q then to_word o.count else 0) + count_with name q os

unfoldable pub count_sum : List Observation → ℕ
count_sum [] = 0
count_sum (o ∷ os) = to_word o.count + count_sum os

-- The entries of the reduced profile.
unfoldable entries_of : (ℕ → List ℕ) → List Observation → List (List (List ℕ) × ℕ)
entries_of name [] = []
entries_of name (o ∷ os) =
    (reduced_path (map name o.stack), (0 + to_word o.count) % 2 ^ 64) ∷ entries_of name os

entries_of-count :
    (name : ℕ → List ℕ) (os : List Observation) (q : List ℕ)
    → list_eq [] q ≡ false
    → cumulative_total q (entries_of name os) ≡ count_with name q os
unfolding entries_of cumulative_total count_with
entries_of-count name [] q h = refl
entries_of-count name (o ∷ os) q h = ground (
  arith,
  places-reduced_path (map name o.stack) q ((0 + to_word o.count) % 2 ^ 64) h,
  to_word-lt o.count,
  entries_of-count name os q h,
)

abbrev pub IsVisible : (ℕ → List ℕ) → Observation → Type 0
IsVisible name o = is_visible (map name o.stack) ≡ true

entries_of-charged :
    (name : ℕ → List ℕ) (os : List Observation)
    → All (IsVisible name) os
    → charged (entries_of name os) ≡ count_sum os
unfolding entries_of charged count_sum
entries_of-charged name [] v = refl
entries_of-charged name (o ∷ os) v =
    let (e, es, same) = reduced_path-IsCons (map name o.stack) v.0 in
    rw same (omega (arith, to_word-lt o.count, entries_of-charged name os v.1))

get_total_count-count_sum :
    (n : ℕ) (os : List Observation)
    → n < 2 ^ 64
    → total_count_from n os ≡ (n + count_sum os) % 2 ^ 64
unfolding total_count_from count_sum
get_total_count-count_sum n [] h = omega arith
get_total_count-count_sum n (o ∷ os) h =
    get_total_count-count_sum ((n + to_word o.count) % 2 ^ 64) os (omega arith) ∙ omega arith

module _ (get_method_name : LocationInfo → Option (List ℕ)) (name : ℕ → List ℕ) where
  -- The location of a `pc` has that name.
  abbrev pub IsNamed : ℕ → Type 0
  IsNamed pc = (l : LocationInfo) → l.pc ≡ pc → get_method_name l ≡ some (name pc)

  translate_stack-map :
      (pcs : List ℕ) (ls : List LocationInfo)
      → All IsNamed pcs
      → (ls' : List LocationInfo) × (translate_stack get_method_name pcs ls
          ≡ some (map name pcs, ls'))
        × SameCounts ls ls'
  unfolding translate_stack
  translate_stack-map [] ls v = (ls, refl, λ q. refl)
  translate_stack-map (pc ∷ pcs) ls v =
      let (ls', run, same) = translate_stack-map pcs (update pc (λ l. l) ls) v.1 in
      (
        ls',
        rw (v.0 (find pc ls) (find-pc pc ls), run) refl,
        λ q. same q ∙ update-SameCounts pc ls q,
      )

  reduce_observations-entries_of :
      (result : List (List (List ℕ) × ℕ)) (os : List Observation) (ls : List LocationInfo)
      → All (λ (o : Observation). All IsNamed o.stack) os
      → (ls' : List LocationInfo) × (reduce_observations get_method_name result os ls
          ≡ some (result ++ entries_of name os, ls'))
        × SameCounts ls ls'
  unfolding reduce_observations entries_of
  reduce_observations-entries_of result [] ls v = (ls, rw (append-nil result) refl, λ q. refl)
  reduce_observations-entries_of result (o ∷ os) ls v =
      let (ls₁, run₁, same₁) = translate_stack-map o.stack ls v.0 in
      let entry : List (List ℕ) × ℕ =
        (reduced_path (map name o.stack), (0 + to_word o.count) % 2 ^ 64) in
      let (ls₂, run₂, same₂) = reduce_observations-entries_of (result ++ (entry ∷ [])) os ls₁ v.1 in
      (
        ls₂,
        rw (run₁, run₂, append_assoc result (entry ∷ []) (entries_of name os)) refl,
        λ q. same₂ q ∙ same₁ q,
      )

  reduced-entries_of :
      (os : List Observation) (ls : List LocationInfo)
      → All (λ (o : Observation). All IsNamed o.stack) os
      → (ls' : List LocationInfo) × (get_reduced get_method_name os ls
          ≡ some (entries_of name os, ls'))
        × SameCounts ls ls'
  unfolding get_reduced
  reduced-entries_of os ls v = reduce_observations-entries_of [] os ls v

  -- Where every address of the stacks has a name, the reduction returns and changes the counts of
  -- no location, and in the cumulative profile of the reduced profile each name that is not empty
  -- has the sum, modulo 2 ^ 64, of the counts of the observations whose stack has that name, each
  -- once however often the name recurs in it.
  pub get_reduced-cumulative :
      (os : List Observation) (ls : List LocationInfo)
      → All (λ (o : Observation). All IsNamed o.stack) os
      → (entries : List (List (List ℕ) × ℕ)) × (ls' : List LocationInfo) × (get_reduced
            get_method_name os ls
          ≡ some (entries, ls'))
        × SameCounts ls ls'
        × ((q : List ℕ)
            → list_eq [] q ≡ false
            → count_of q (get_cumulative_profile entries) ≡ count_with name q os % 2 ^ 64)
  get_reduced-cumulative os ls v =
      let (ls', run, same) = reduced-entries_of os ls v in
      (
        entries_of name os,
        ls',
        run,
        same,
        λ q h.
            get_cumulative_profile-count (entries_of name os) q
            ∙ ap (λ (n : ℕ). n % 2 ^ 64) (entries_of-count name os q h),
      )

  -- Where every address of the stacks has a name and every stack has one that is not empty, the
  -- reduction returns, and the total of the flat profile of the reduced profile is the total count
  -- of the observations.
  pub total_profile-total :
      (os : List Observation) (ls : List LocationInfo)
      → All (λ (o : Observation). All IsNamed o.stack) os
      → All (IsVisible name) os
      → (entries : List (List (List ℕ) × ℕ)) × (ls' : List LocationInfo) × (get_reduced
            get_method_name os ls
          ≡ some (entries, ls'))
        × (total_profile (get_flat_profile entries) ≡ get_total_count os)
  unfolding get_total_count
  total_profile-total os ls v visible =
      let (ls', run, same) = reduced-entries_of os ls v in
      (
        entries_of name os,
        ls',
        run,
        total_profile-get_flat_profile (entries_of name os)
            ∙ omega (
              arith,
              entries_of-charged name os visible,
              get_total_count-count_sum 0 os (omega arith),
            ),
      )
