-- ===== src/ProfileData/Add/Hit.antt =====
-- The search of `ProfileData::Add`, and the counts of the stacks in a bucket.
use javaprofiler.Base.{
  ℕ, suc, ◌+◌, ◌%◌, ◌^◌, ◌≤◌, ◌<◌, ◌≡◌, refl, ap, subst, List, [], ◌∷◌, length, take, All, some,
  if◌then◌else◌, arith, true, Bool-cases, Option-cases, inl, inr, list_eq, list_eq_refl, word_mod,
}
use javaprofiler.Slot.{IsSlot}
use javaprofiler.ProfileData.{Entry, Bucket, max_stack_depth}
use javaprofiler.ProfileData.Sample.{Sample, entry_sample, bucket_samples, IsEntry}
use javaprofiler.ProfileData.Tally.{weight, tally, tally-bucket_cons}
use javaprofiler.ProfileData.Add.{is_match, count_hit}
use javaprofiler.ProfileData.Add.Match.{is_match_iff}

-- One sample of the stack `key`.
abbrev pub one : List ℕ → List ℕ → ℕ
one key k = if list_eq key k then 1 else 0

-- `es'` is `es` after one more sample of `key`, with the samples `out` moved out of it.
pub record BucketStep (key : List ℕ) (out : List Sample) (es es' : Bucket) : Type 0 where
  pub size : length es' ≡ length es
  pub entries : All IsEntry es'
  pub tallies :
      (k : List ℕ)
      → tally k (bucket_samples es') + tally k out ≡ tally k (bucket_samples es) + one key k

-- What every call on a bucket may assume: the caller's array and the entries.
pub record CanAdd (d : ℕ) (stack : List ℕ) (es : Bucket) : Type 0 where
  pub pos : 0 < d
  pub shallow : d ≤ max_stack_depth
  pub long : d ≤ length stack
  pub words : All IsSlot stack
  pub entries : All IsEntry es
  pub countable : tally (take d stack) (bucket_samples es) + 1 < word_mod

pub CanAdd-tail :
    (d : ℕ) (stack : List ℕ) (e : Entry) (es : Bucket) → CanAdd d stack (e ∷ es) → CanAdd d stack es
CanAdd-tail d stack e es c = record {
  pos = c.pos;
  shallow = c.shallow;
  long = c.long;
  words = c.words;
  entries = c.entries.1;
  countable = omega (arith, tally-bucket_cons (take d stack) e es, c.countable);
}

-- A hit raises the count of an entry that holds the stack, without wrapping.
hit-BucketStep :
    (d : ℕ) (stack : List ℕ) (e : Entry) (es : Bucket)
    → CanAdd d stack (e ∷ es)
    → is_match d stack e ≡ true
    → BucketStep (take d stack) [] (e ∷ es) (record e { count = (e.count + 1) % 2 ^ 64 } ∷ es)
unfolding tally
hit-BucketStep d stack e es c m =
    let v = c.entries.0 in
    let (depth, key) = (is_match_iff d stack e v c.shallow c.long).0 m in
    let own : weight (take d stack) (entry_sample e) ≡ e.count = rw (key, list_eq_refl) in
    let fits : e.count + 1 < word_mod =
      omega (arith, tally-bucket_cons (take d stack) e es, c.countable, own) in
    let plain : (e.count + 1) % 2 ^ 64 ≡ e.count + 1 = omega (arith, fits) in
    record {
      size = refl;
      entries = (
        record {
          size = v.size;
          shallow = v.shallow;
          words = v.words;
          word_count = rw plain fits;
          deep = λ _. rw depth c.pos;
        },
        c.entries.1,
      );
      tallies = λ k. rw plain (
          ground (
            arith,
            key,
            tally-bucket_cons k e es,
            tally-bucket_cons k (record e { count = e.count + 1 }) es,
          ));
    }

hit_here :
    (d : ℕ) (stack : List ℕ) (e : Entry) (es es' : Bucket)
    → CanAdd d stack (e ∷ es)
    → is_match d stack e ≡ true
    → count_hit d stack (e ∷ es) ≡ some es'
    → BucketStep (take d stack) [] (e ∷ es) es'
unfolding count_hit
hit_here d stack e es es' c m h =
    let same : record e { count = (e.count + 1) % 2 ^ 64 } ∷ es ≡ es' = ground arith in
    subst (BucketStep (take d stack) [] (e ∷ es)) same (hit-BucketStep d stack e es c m)

keep-BucketStep :
    (key : List ℕ) (e : Entry) (es es' : Bucket)
    → IsEntry e
    → BucketStep key [] es es'
    → BucketStep key [] (e ∷ es) (e ∷ es')
keep-BucketStep key e es es' v b = record {
  size = ap suc b.size;
  entries = (v, b.entries);
  tallies = λ k. omega (arith, b.tallies k, tally-bucket_cons k e es, tally-bucket_cons k e es');
}

-- With a positive depth within the limit, an array of 64-bit slots that reaches as far, and a
-- bucket of well-formed entries whose count for the stack does not overflow, a search that finds
-- the stack raises the count of its entry: the bucket keeps its size and well-formed entries, and
-- its tally grows by one for this stack and for no other.
pub count_hit-BucketStep :
    (d : ℕ) (stack : List ℕ) (es es' : Bucket)
    → CanAdd d stack es
    → count_hit d stack es ≡ some es'
    → BucketStep (take d stack) [] es es'
unfolding count_hit
count_hit-BucketStep d stack [] es' c h = cc
count_hit-BucketStep d stack (e ∷ es) es' c h = elim (Bool-cases (is_match d stack e)) [
  | inl m ↦ hit_here d stack e es es' c m h
  | inr n ↦ elim (Option-cases (count_hit d stack es)) [
    | inl missed ↦ absurd (ground arith)
    | inr (es'', hit) ↦
        let same : e ∷ es'' ≡ es' = ground arith in
        subst (BucketStep (take d stack) [] (e ∷ es)) same (
          keep-BucketStep (take d stack) e es es'' c.entries.0
            (count_hit-BucketStep d stack es es'' (CanAdd-tail d stack e es c) hit))
  ]
]
