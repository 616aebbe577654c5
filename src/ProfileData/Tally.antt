-- ===== src/ProfileData/Tally.antt =====
-- How often each stack was sampled, by the samples of a table or file of profiledata.cc and by the
-- calls of `Add`.
use javaprofiler.Base.{
  ℕ, zero, suc, ◌+◌, ◌≤◌, ◌≡◌, List, [], ◌∷◌, ◌++◌, length, if◌then◌else◌, arith, list_eq, set,
  get_elem?, some,
}
use javaprofiler.ProfileData.{Entry, Bucket}
use javaprofiler.ProfileData.Sample.{
  Sample, entry_sample, live_sample, bucket_samples, table_samples,
}

abbrev pub weight : List ℕ → Sample → ℕ
weight k s = if list_eq s.stack k then s.count else 0

-- The count of the stack `k` in a list of samples.
unfoldable pub tally : List ℕ → List Sample → ℕ
tally k [] = 0
tally k (s ∷ ss) = weight k s + tally k ss

-- How many of the stacks are `k`.
unfoldable pub occurs : List ℕ → List (List ℕ) → ℕ
occurs k [] = 0
occurs k (s ∷ ss) = (if list_eq s k then 1 else 0) + occurs k ss

pub tally-append : (k : List ℕ) (xs ys : List Sample) → tally k (xs ++ ys) ≡ tally k xs + tally k ys
unfolding tally
tally-append k [] ys = omega arith
tally-append k (x ∷ xs) ys = omega (arith, tally-append k xs ys)

pub occurs-le-length : (k : List ℕ) (ss : List (List ℕ)) → occurs k ss ≤ length ss
unfolding occurs
occurs-le-length k [] = omega arith
occurs-le-length k (s ∷ ss) = ground (arith, occurs-le-length k ss)

pub tally-live_sample :
    (k : List ℕ) (e : Entry) → tally k (live_sample e) ≡ weight k (entry_sample e)
unfolding tally live_sample
tally-live_sample k e = ground arith

-- The tallies of a bucket and of a table, entry by entry and bucket by bucket.
pub tally-bucket_cons :
    (k : List ℕ) (e : Entry) (es : Bucket)
    → tally k (bucket_samples (e ∷ es)) ≡ weight k (entry_sample e) + tally k (bucket_samples es)
unfolding bucket_samples
tally-bucket_cons k e es =
    omega (arith, tally-append k (live_sample e) (bucket_samples es), tally-live_sample k e)

pub tally-table_cons :
    (k : List ℕ) (b : Bucket) (bs : List Bucket)
    → tally k (table_samples (b ∷ bs)) ≡ tally k (bucket_samples b) + tally k (table_samples bs)
unfolding table_samples
tally-table_cons k b bs = tally-append k (bucket_samples b) (table_samples bs)

-- Writing one entry, or one bucket, moves the tally by the difference.
pub tally-set_entry :
    (k : List ℕ) (es : Bucket) (i : ℕ) {old : Entry} (new : Entry)
    → get_elem? es i ≡ some old
    → tally k (bucket_samples (set es i new)) + weight k (entry_sample old)
      ≡ tally k (bucket_samples es) + weight k (entry_sample new)
unfolding get_elem? set
tally-set_entry k [] i new h = cc
tally-set_entry k (e ∷ es) zero {old} new h =
    let same : e ≡ old = cc in
    rw (← same) (omega (arith, tally-bucket_cons k e es, tally-bucket_cons k new es))
tally-set_entry k (e ∷ es) (suc i) new h = omega (
  arith,
  tally-bucket_cons k e es,
  tally-bucket_cons k e (set es i new),
  tally-set_entry k es i new h,
)

pub tally-set_bucket :
    (k : List ℕ) (bs : List Bucket) (i : ℕ) {old : Bucket} (new : Bucket)
    → get_elem? bs i ≡ some old
    → tally k (table_samples (set bs i new)) + tally k (bucket_samples old)
      ≡ tally k (table_samples bs) + tally k (bucket_samples new)
unfolding get_elem? set
tally-set_bucket k [] i new h = cc
tally-set_bucket k (b ∷ bs) zero {old} new h =
    let same : b ≡ old = cc in
    rw (← same) (omega (arith, tally-table_cons k b bs, tally-table_cons k new bs))
tally-set_bucket k (b ∷ bs) (suc i) new h = omega (
  arith,
  tally-table_cons k b bs,
  tally-table_cons k b (set bs i new),
  tally-set_bucket k bs i new h,
)

-- A bucket's tally is part of its table's.
pub tally-bucket_le :
    (k : List ℕ) (bs : List Bucket) (i : ℕ) {b : Bucket}
    → get_elem? bs i ≡ some b
    → tally k (bucket_samples b) ≤ tally k (table_samples bs)
unfolding get_elem?
tally-bucket_le k [] i h = cc
tally-bucket_le k (c ∷ bs) zero {b} h =
    let same : c ≡ b = cc in rw (← same) (omega (arith, tally-table_cons k c bs))
tally-bucket_le k (c ∷ bs) (suc i) h =
    omega (arith, tally-table_cons k c bs, tally-bucket_le k bs i h)
