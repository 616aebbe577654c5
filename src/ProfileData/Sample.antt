-- ===== src/ProfileData/Sample.antt =====
-- Samples as they are written: a count, a depth and a stack; and the samples that a table holds.
use javaprofiler.Base.{
  ℕ, ◌≤◌, ◌<◌, ◌≡◌, refl, sym, ap, ◌∙◌, List, [], ◌∷◌, ◌++◌, length, take, length-take,
  append_assoc, All, All-append, All-take, ltb, if◌then◌else◌, arith, Bool-cases, inl, inr,
}
use javaprofiler.Slot.{IsSlot}
use javaprofiler.ProfileData.{Entry, Bucket, max_stack_depth}

pub record Sample : Type 0 where
  pub count : ℕ
  pub stack : List ℕ

-- The slots that stand for samples in the buffer and in the file.
abbrev pub sample_slots : Sample → List ℕ
sample_slots s = s.count ∷ length s.stack ∷ s.stack

unfoldable pub samples_slots : List Sample → List ℕ
samples_slots [] = []
samples_slots (s ∷ ss) = sample_slots s ++ samples_slots ss

pub samples_slots-append :
    (xs ys : List Sample) → samples_slots (xs ++ ys) ≡ samples_slots xs ++ samples_slots ys
unfolding samples_slots
samples_slots-append [] ys = refl
samples_slots-append (x ∷ xs) ys =
    ap (◌++◌ (sample_slots x)) (samples_slots-append xs ys)
    ∙ sym (append_assoc (sample_slots x) (samples_slots xs) (samples_slots ys))

abbrev pub entry_sample : Entry → Sample
entry_sample e = record { count = e.count; stack = take e.depth e.stack }

-- An entry is live if its count is positive.
unfoldable pub live_sample : Entry → List Sample
live_sample e = if ltb 0 e.count then entry_sample e ∷ [] else []

unfoldable pub bucket_samples : Bucket → List Sample
bucket_samples [] = []
bucket_samples (e ∷ es) = live_sample e ++ bucket_samples es

unfoldable pub table_samples : List Bucket → List Sample
table_samples [] = []
table_samples (b ∷ bs) = bucket_samples b ++ table_samples bs

-- An entry of the table: its array has the declared size, its depth is within it, its slots are
-- words, and it has a depth if it has a count.
pub record IsEntry (e : Entry) : Type 0 where
  pub size : length e.stack ≡ max_stack_depth
  pub shallow : e.depth ≤ max_stack_depth
  pub words : All IsSlot e.stack
  pub word_count : IsSlot e.count
  pub deep : 0 < e.count → 0 < e.depth

-- A sample that a file can hold.
pub record IsSample (s : Sample) : Type 0 where
  pub counted : 0 < s.count
  pub word_count : IsSlot s.count
  pub deep : 0 < length s.stack
  pub shallow : length s.stack ≤ max_stack_depth
  pub words : All IsSlot s.stack

pub length-entry_sample : (e : Entry) → IsEntry e → length (take e.depth e.stack) ≡ e.depth
length-entry_sample e v = omega (arith, length-take e.depth e.stack, v.size, v.shallow)

pub live_sample-IsSample : (e : Entry) → IsEntry e → All IsSample (live_sample e)
unfolding live_sample
live_sample-IsSample e v = elim (Bool-cases (ltb 0 e.count)) [
  | inr dead ↦ rw dead tt
  | inl live ↦ rw live (
    record {
      counted = ground arith;
      word_count = v.word_count;
      deep = rw (length-entry_sample e v) (v.deep (ground arith));
      shallow = rw (length-entry_sample e v) v.shallow;
      words = All-take IsSlot e.depth e.stack v.words;
    },
    tt,
  )
]

pub bucket_samples-IsSample : (es : Bucket) → All IsEntry es → All IsSample (bucket_samples es)
unfolding bucket_samples
bucket_samples-IsSample [] h = tt
bucket_samples-IsSample (e ∷ es) h =
    All-append IsSample (live_sample e) (bucket_samples es) (live_sample-IsSample e h.0)
      (bucket_samples-IsSample es h.1)

pub table_samples-IsSample :
    (bs : List Bucket) → All (All IsEntry) bs → All IsSample (table_samples bs)
unfolding table_samples
table_samples-IsSample [] h = tt
table_samples-IsSample (b ∷ bs) h =
    All-append IsSample (bucket_samples b) (table_samples bs) (bucket_samples-IsSample b h.0)
      (table_samples-IsSample bs h.1)
