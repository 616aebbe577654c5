-- ===== src/ProfileData/Add.antt =====
-- `ProfileData::Add`: the hash of a stack, the search of its bucket, and the replacement of the
-- entry with the smallest count.
pub mod Match
pub mod Smallest
pub mod Hit
pub mod Replace
pub mod Unique
use javaprofiler.Base.{
  ℕ, zero, suc, ◌+◌, ◌*◌, ◌/◌, ◌%◌, ◌^◌, ℤ, pos, negsuc, Bool, true, false, ◌&&◌, Option, none,
  some, List, [], ◌∷◌, get_elem?, set, ltb, ◌==◌, if◌then◌else◌, bit_or, arith,
}
use javaprofiler.Run.{Run, ok, fault, check_failed, out_of_bounds, ◌>>=◌}
use javaprofiler.ProfileData.{
  Entry, Bucket, ProfileData, World, max_stack_depth, buckets, enabled, evict,
}

-- One round of the hash loop, on 64-bit words.
unfoldable pub mix : ℕ → ℕ → ℕ
mix h slot =
    let rotated = bit_or (h * 2 ^ 8 % 2 ^ 64) (h / 2 ^ (8 * 7)) in
    (rotated + slot * 31 + slot * 7 + slot * 3) % 2 ^ 64

-- The hash of the first `depth` slots of the caller's array.
unfoldable pub hash_stack : ℕ → List ℕ → ℕ → Run ℕ
hash_stack zero stack h = ok h
hash_stack (suc n) [] h = fault out_of_bounds
hash_stack (suc n) (slot ∷ stack) h = hash_stack n stack (mix h slot)

-- The loop that compares an entry's stack with the caller's; it stops at the first difference.
unfoldable pub same_stack : ℕ → List ℕ → List ℕ → Bool
same_stack zero xs ys = true
same_stack (suc n) (x ∷ xs) (y ∷ ys) = x == y && same_stack n xs ys
same_stack (suc n) _ _ = false

unfoldable pub is_match : ℕ → List ℕ → Entry → Bool
is_match depth stack e = e.depth == depth && same_stack depth e.stack stack

-- An entry that the search passes over stays where it is.
abbrev keep_entry : Entry → Option Bucket → Option Bucket
keep_entry e none = none
keep_entry e (some es) = some (e ∷ es)

-- The search for the trace in its bucket: the bucket with the count of the first matching entry
-- raised, or `none` if `done` stays false.
unfoldable pub count_hit : ℕ → List ℕ → Bucket → Option Bucket
count_hit depth stack [] = none
count_hit depth stack (e ∷ es) =
    let later = keep_entry e (count_hit depth stack es) in
    if is_match depth stack e
    then some (record e { count = (e.count + 1) % 2 ^ 64 } ∷ es)
    else later

-- The loop that looks for the smallest count: `a` is the index of the first entry of `es`, `best`
-- the index that `e` points to and `least` its count.
unfoldable pub smallest_from : Bucket → ℕ → ℕ → ℕ → ℕ
smallest_from [] a best least = best
smallest_from (e ∷ es) a best least =
    smallest_from es (a + 1) (if ltb e.count least then a else best)
      (if ltb e.count least then e.count else least)

unfoldable pub smallest : Bucket → ℕ
unfolding smallest_from
smallest [] = 0
smallest (e ∷ es) = smallest_from es 1 0 e.count

-- The loop that copies `depth` slots of the caller's array over an entry's stack.
unfoldable pub copy_stack : ℕ → List ℕ → List ℕ → List ℕ
copy_stack zero src dst = dst
copy_stack (suc n) (s ∷ src) (d ∷ dst) = s ∷ copy_stack n src dst
copy_stack (suc n) _ dst = dst

unfoldable pub reuse_entry : ℕ → List ℕ → Entry → Entry
reuse_entry depth stack e = record {
  count = 1;
  depth = depth;
  stack = copy_stack depth stack e.stack;
}

-- A victim that holds a sample is counted and moved to the eviction buffer.
unfoldable pub evict_victim : Entry → World → Run World
evict_victim e w =
    if ltb 0 e.count
    then evict e
        (record w { profile = record w.profile { evictions = (w.profile.evictions + 1) % 2 ^ 32 } })
    else ok w

abbrev pub at_index {ℓ} : {A : Type ℓ} → List A → ℕ → Run A
at_index xs i = elim (get_elem? xs i) [ none ↦ fault out_of_bounds | some x ↦ ok x ]

-- The part of `Add` after `!done`: the new bucket.
unfoldable pub replace_smallest : ℕ → List ℕ → Bucket → World → Run (Bucket × World)
replace_smallest depth stack bucket w = do
  victim ← at_index bucket (smallest bucket)
  w' ← evict_victim victim w
  ok (set bucket (smallest bucket) (reuse_entry depth stack victim), w')

-- The search, and the replacement if it fails.
unfoldable pub add_to_bucket : ℕ → List ℕ → Bucket → World → Run (Bucket × World)
add_to_bucket depth stack bucket w = elim (count_hit depth stack bucket) [
  | some bucket' ↦ ok (bucket', w)
  | none ↦ replace_smallest depth stack bucket w
]

-- `Add` on an enabled collector, its depth checked and limited.
unfoldable pub add_sample : ℕ → List ℕ → World → Run World
add_sample depth stack w = do
  h ← hash_stack depth stack 0
  let w₁ = record w { profile = record w.profile { count = (w.profile.count + 1) % 2 ^ 32 } }
  bucket ← at_index w₁.profile.hash (h % buckets)
  (bucket', w₂) ← add_to_bucket depth stack bucket w₁
  ok (record w₂ {
    profile = record w₂.profile { hash = set w₂.profile.hash (h % buckets) bucket' };
  })

-- `if (depth > kMaxStackDepth) depth = kMaxStackDepth`.
abbrev pub limit_depth : ℕ → ℕ
limit_depth depth = if ltb max_stack_depth depth then max_stack_depth else depth

unfoldable pub add_checked : ℤ → List ℕ → World → Run World
add_checked (negsuc n) stack w = fault check_failed
add_checked (pos zero) stack w = fault check_failed
add_checked (pos depth) stack w = add_sample (limit_depth depth) stack w

unfoldable pub add : ℤ → List ℕ → World → Run World
unfolding add_checked
add depth stack w = if enabled w then add_checked depth stack w else ok w
