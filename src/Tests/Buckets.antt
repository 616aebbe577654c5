-- ===== src/Tests/Buckets.antt =====
-- The theorems about the hash table and the eviction buffer of profiledata.cc at concrete inputs.
use javaprofiler.Base.{
  ℕ, suc, ◌<◌, ◌≡◌, refl, ap, List, [], ◌∷◌, take, replicate, length-replicate, All, All-replicate,
  some, arith, word_mod, list_eq,
}
use javaprofiler.Run.{Returns}
use javaprofiler.Slot.{IsSlot}
use javaprofiler.ProfileData.{Entry, Bucket, evict}
use javaprofiler.ProfileData.Add.{count_hit, smallest, smallest_from, mix, is_match, same_stack}
use javaprofiler.ProfileData.Add.Hit.{CanAdd}
use javaprofiler.ProfileData.Sample.{
  IsEntry, sample_slots, entry_sample, bucket_samples, live_sample,
}
use javaprofiler.ProfileData.Tally.{tally}
use javaprofiler.ProfileData.Emit.{Emits}
use javaprofiler.ProfileData.Drain.{evict-Emits}
use javaprofiler.Tests.{path, stack, stack-words, running_world, running_world-Tracks}

-- An entry with a sample of one frame.
abbrev entry : ℕ → ℕ → Entry
entry count method = record { count = count; depth = 2; stack = method ∷ 12 ∷ replicate 62 0 }

entry-IsEntry :
    (count method : ℕ) → count < word_mod → method < word_mod → IsEntry (entry count method)
entry-IsEntry count method h k = record {
  size = ap (λ (n : ℕ). suc (suc n)) (length-replicate {A = ℕ} 62 0);
  shallow = omega arith;
  words = (k, (omega arith, All-replicate IsSlot 62 0 (omega arith)));
  word_count = h;
  deep = λ _. omega arith;
}

-- A full bucket, with two entries of the smallest count.
abbrev bucket : Bucket
bucket = entry 3 4 ∷ entry 1 5 ∷ entry 1 7 ∷ entry 9 8 ∷ []

bucket-entries : All IsEntry bucket
bucket-entries = (
  entry-IsEntry 3 4 (omega arith) (omega arith),
  (
    entry-IsEntry 1 5 (omega arith) (omega arith),
    (
      entry-IsEntry 1 7 (omega arith) (omega arith),
      (entry-IsEntry 9 8 (omega arith) (omega arith), tt),
    ),
  ),
)

-- A stack that the bucket does not hold.
abbrev other : List ℕ
other = 6 ∷ 12 ∷ []

other-CanAdd : CanAdd 2 other bucket
unfolding tally bucket_samples live_sample take list_eq
other-CanAdd = record {
  pos = omega arith;
  shallow = omega arith;
  long = omega arith;
  words = (omega arith, (omega arith, tt));
  entries = bucket-entries;
  countable = omega arith;
}

stack-CanAdd : CanAdd 2 stack bucket
unfolding tally bucket_samples live_sample take list_eq
stack-CanAdd = record {
  pos = omega arith;
  shallow = omega arith;
  long = omega arith;
  words = stack-words;
  entries = bucket-entries;
  countable = omega arith;
}

-- Of the two entries with the smallest count, the first is the victim.
second_is_victim : smallest bucket ≡ 1
unfolding smallest smallest_from
second_is_victim = refl

-- One round of the hash of the stack's first slot, 7 * (31 + 7 + 3).
first_round : mix 0 7 ≡ 287
unfolding mix
first_round = refl

-- The bucket after a hit.
abbrev bucket' : Bucket
bucket' = entry 3 4 ∷ entry 1 5 ∷ entry 2 7 ∷ entry 9 8 ∷ []

stack-hit : count_hit 2 stack bucket ≡ some bucket'
unfolding count_hit is_match same_stack
stack-hit = refl

evict-Emits_example :
    Returns
      (evict (entry 1 7) running_world)
      (Emits path (sample_slots (entry_sample (entry 1 7))) running_world)
evict-Emits_example =
    evict-Emits path (entry 1 7) running_world running_world-Tracks.opened
      (entry-IsEntry 1 7 (omega arith) (omega arith))
