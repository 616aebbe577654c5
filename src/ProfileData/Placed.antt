-- ===== src/ProfileData/Placed.antt =====
-- The hash table of profiledata.cc: where a stack's entry can be.
use javaprofiler.Base.{
  ℕ, zero, suc, ◌+◌, ◌%◌, ◌≤◌, ◌<◌, ◌≡◌, refl, List, [], ◌∷◌, length, take, set, get_elem?,
  replicate, arith, Bool-cases, false, ◌==◌, ltb, some, inl, inr, list_eq, list_eq_sound,
}
use javaprofiler.Run.{ok}
use javaprofiler.ProfileData.{Entry, Bucket, buckets, zero_entry, new_table}
use javaprofiler.ProfileData.Add.{hash_stack}
use javaprofiler.ProfileData.Add.Unique.{holds, holders, IsUnique, Places}
use javaprofiler.ProfileData.Drain.{clear_entry, clear_bucket, clear_table}

-- The bucket at index `i` holds only stacks whose hash names it.
abbrev pub IsHome : ℕ → Bucket → Type 0
IsHome i b =
    (key : List ℕ) (h : ℕ)
    → 0 < length key
    → hash_stack (length key) key 0 ≡ ok h
    → (h % buckets == i) ≡ false
    → holders key b ≡ 0

-- So do the buckets from index `i` on, and none has two entries for one stack.
abbrev pub IsPlaced : ℕ → List Bucket → Type 0
IsPlaced i [] = Unit {0}
IsPlaced i (b ∷ bs) = (IsUnique b × IsHome i b) × IsPlaced (i + 1) bs

IsPlaced-get :
    (i : ℕ) (bs : List Bucket) (j : ℕ) (b : Bucket)
    → IsPlaced i bs
    → get_elem? bs j ≡ some b
    → IsUnique b × IsHome (i + j) b
unfolding get_elem?
IsPlaced-get i [] j b p h = cc
IsPlaced-get i (c ∷ bs) zero b p h =
    let same : c ≡ b = cc in let first : i + 0 ≡ i = omega arith in rw (first, ← same) p.0
IsPlaced-get i (c ∷ bs) (suc j) b p h =
    let next : i + suc j ≡ i + 1 + j = omega arith in rw next (IsPlaced-get (i + 1) bs j b p.1 h)

IsPlaced-set :
    (i : ℕ) (bs : List Bucket) (j : ℕ) (b : Bucket)
    → IsPlaced i bs
    → IsUnique b × IsHome (i + j) b
    → IsPlaced i (set bs j b)
unfolding set
IsPlaced-set i [] j b p q = tt
IsPlaced-set i (c ∷ bs) zero b p q =
    let first : i + 0 ≡ i = omega arith in ((q.0, rw first at q.1), p.1)
IsPlaced-set i (c ∷ bs) (suc j) b p q =
    let next : i + suc j ≡ i + 1 + j = omega arith in
    (p.0, IsPlaced-set (i + 1) bs j b p.1 (q.0, rw next at q.1))

-- The hash reads only the slots that the entry keeps.
pub hash_stack-take :
    (d : ℕ) (stack : List ℕ) (h : ℕ)
    → d ≤ length stack
    → hash_stack (length (take d stack)) (take d stack) h ≡ hash_stack d stack h
unfolding hash_stack take
hash_stack-take zero stack h k = refl
hash_stack-take (suc d) [] h k = absurd (omega arith)
hash_stack-take (suc d) (s ∷ stack) h k = hash_stack-take d stack _ (omega arith)

-- A stack that gets a place in the bucket of its hash.
Places-IsHome :
    (key : List ℕ) (h : ℕ) (b b' : Bucket)
    → hash_stack (length key) key 0 ≡ ok h
    → Places key b b'
    → IsHome (h % buckets) b
    → IsHome (h % buckets) b'
Places-IsHome key h b b' hashed p home k h' deep hashed' away = elim (Bool-cases (list_eq key k)) [
  | inr differs ↦ omega (arith, p.others k differs, home k h' deep hashed' away)
  | inl same ↦
      let e : key ≡ k = list_eq_sound key k same in
      let same_hash : hash_stack (length key) key 0 ≡ ok h' = rw e hashed' in
      let hashes : h ≡ h' = cc in absurd (ground (arith, hashes))
]

-- A bucket's change at its stack's hash.
pub set-IsPlaced :
    (key : List ℕ) (h : ℕ) (bs : List Bucket) (b b' : Bucket)
    → hash_stack (length key) key 0 ≡ ok h
    → IsPlaced 0 bs
    → get_elem? bs (h % buckets) ≡ some b
    → Places key b b'
    → IsPlaced 0 (set bs (h % buckets) b')
set-IsPlaced key h bs b b' hashed p found places =
    let (unique, home) = IsPlaced-get 0 bs (h % buckets) b p found in
    let at_zero : 0 + h % buckets ≡ h % buckets = omega arith in
    IsPlaced-set 0 bs (h % buckets) b' p (
      (places.unique unique).0,
      rw at_zero (Places-IsHome key h b b' hashed places (rw at_zero at home)),
    )

zero_entry-holds : (key : List ℕ) → 0 < length key → holds key zero_entry ≡ 0
unfolding zero_entry list_eq take
zero_entry-holds [] h = absurd (omega arith)
zero_entry-holds (k ∷ ks) h = refl

zero_bucket-holders :
    (n : ℕ) (key : List ℕ) → 0 < length key → holders key (replicate n zero_entry) ≡ 0
unfolding holders replicate
zero_bucket-holders zero key h = refl
zero_bucket-holders (suc n) key h =
    omega (arith, zero_entry-holds key h, zero_bucket-holders n key h)

replicate-IsPlaced : (n m i : ℕ) → IsPlaced i (replicate n (replicate m zero_entry))
unfolding replicate
replicate-IsPlaced zero m i = tt
replicate-IsPlaced (suc n) m i = (
  (λ key k. omega (arith, zero_bucket-holders m key k), λ key h k _ _. zero_bucket-holders m key k),
  replicate-IsPlaced n m (i + 1),
)

pub new_table-IsPlaced : IsPlaced 0 new_table
unfolding new_table
new_table-IsPlaced = replicate-IsPlaced _ _ 0

clear_entry-holds :
    (key : List ℕ) (e : Entry) → 0 < length key → holds key (clear_entry e) ≤ holds key e
unfolding list_eq take
clear_entry-holds [] e h = absurd (omega arith)
clear_entry-holds (k ∷ ks) e h = elim (Bool-cases (ltb 0 e.count)) [
  | inl live ↦ rw live (omega arith)
  | inr dead ↦ rw dead (omega arith)
]

clear_bucket-holders :
    (key : List ℕ) (es : Bucket) → 0 < length key → holders key (clear_bucket es) ≤ holders key es
unfolding holders clear_bucket
clear_bucket-holders key [] h = omega arith
clear_bucket-holders key (e ∷ es) h =
    omega (arith, clear_entry-holds key e h, clear_bucket-holders key es h)

pub clear_table-IsPlaced : (i : ℕ) (bs : List Bucket) → IsPlaced i bs → IsPlaced i (clear_table bs)
unfolding clear_table
clear_table-IsPlaced i [] p = tt
clear_table-IsPlaced i (b ∷ bs) p = (
  (
    λ key k. omega (arith, clear_bucket-holders key b k, p.0.0 key k),
    λ key h k hashed away. omega (arith, clear_bucket-holders key b k, p.0.1 key h k hashed away),
  ),
  clear_table-IsPlaced (i + 1) bs p.1,
)

-- How many entries of a table hold a stack.
unfoldable pub table_holders : List ℕ → List Bucket → ℕ
table_holders key [] = 0
table_holders key (b ∷ bs) = holders key b + table_holders key bs

module _ (key : List ℕ) (h : ℕ) (deep : 0 < length key)
    (hashed : hash_stack (length key) key 0 ≡ ok h) where
  table_holders-beyond :
      (i : ℕ) (bs : List Bucket) → IsPlaced i bs → h % buckets < i → table_holders key bs ≡ 0
  unfolding table_holders
  table_holders-beyond i [] p k = refl
  table_holders-beyond i (b ∷ bs) p k =
      let away : (h % buckets == i) ≡ false = ground arith in
      omega (arith, p.0.1 key h deep hashed away, table_holders-beyond (i + 1) bs p.1 (omega arith))

  pub table_holders-le : (i : ℕ) (bs : List Bucket) → IsPlaced i bs → table_holders key bs ≤ 1
  unfolding table_holders
  table_holders-le i [] p = omega arith
  table_holders-le i (b ∷ bs) p = elim (Bool-cases (h % buckets == i)) [
    | inr away ↦ omega (arith, p.0.1 key h deep hashed away, table_holders-le (i + 1) bs p.1)
    | inl here ↦
        let below : h % buckets < i + 1 = ground arith in
        omega (arith, p.0.0 key deep, table_holders-beyond (i + 1) bs p.1 below)
  ]
