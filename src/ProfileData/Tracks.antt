-- ===== src/ProfileData/Tracks.antt =====
-- The invariant of an enabled collector of profiledata.cc: what the file, the eviction buffer and the
-- hash table hold together, and the samples that were added.
pub mod Add
pub mod Control
pub mod Flush
pub mod Single
use javaprofiler.Base.{
  ℕ, zero, suc, ◌+◌, ◌%◌, ◌^◌, ◌≤◌, ◌<◌, ◌≡◌, refl, sym, ap, ◌∙◌, ℤ, List, [], ◌∷◌, ◌++◌, length,
  length-replicate, replicate, All, All-replicate, arith, some, append-nil, append_assoc,
  length-set, All-set, get_elem?, set,
}
use javaprofiler.Slot.{encode, encode-append, IsSlot}
use javaprofiler.ProfileData.{
  Entry, Bucket, World, ProfileData, buckets, associativity, max_stack_depth, header, zero_entry,
  new_table,
}
use javaprofiler.ProfileData.Sample.{
  Sample, IsSample, IsEntry, bucket_samples, table_samples, live_sample, samples_slots,
  samples_slots-append,
}
use javaprofiler.ProfileData.Tally.{
  tally, occurs, tally-append, tally-bucket_cons, tally-table_cons,
}
use javaprofiler.ProfileData.Placed.{IsPlaced}
use javaprofiler.ProfileData.Emit.{IsOpen, Emits, stream}
use javaprofiler.ProfileData.Drain.{clear_entry, clear_bucket, clear_table}

-- The shape of the hash table.
pub record IsTable (bs : List Bucket) : Type 0 where
  pub rows : length bs ≡ buckets
  pub width : All (λ (b : Bucket). length b ≡ associativity) bs
  pub entries : All (All IsEntry) bs

-- The collector is open, so that no write to come fails. `log` is what was sent to the stream after the header, `samples` the stacks of all samples since
-- `Start`, latest first.
pub record Tracks (path : List ℕ) (frequency : ℤ) (samples : List (List ℕ)) (w : World)
    : Type 0 where
  pub opened : IsOpen path w
  pub named : w.profile.fname ≡ some path
  pub counted : w.profile.count ≡ length samples % 2 ^ 32
  pub table : IsTable w.profile.hash
  pub placed : IsPlaced 0 w.profile.hash
  pub log : List Sample
  pub logged : All IsSample log
  pub written : stream path w ≡ encode (header frequency ++ samples_slots log)
  pub conserved :
      (k : List ℕ) → tally k log + tally k (table_samples w.profile.hash) ≡ occurs k samples

-- After more samples went to the stream, it is the header and the longer log.
pub written-append :
    (path : List ℕ) (frequency : ℤ) (log out : List Sample) {w w' : World}
    → stream path w ≡ encode (header frequency ++ samples_slots log)
    → Emits path (samples_slots out) w w'
    → stream path w' ≡ encode (header frequency ++ samples_slots (log ++ out))
written-append path frequency log out h e =
    e.grown
    ∙ ap (λ s. s ++ encode (samples_slots out)) h
    ∙ sym (encode-append (header frequency ++ samples_slots log) (samples_slots out))
    ∙ ap encode (append_assoc (header frequency) (samples_slots log) (samples_slots out))
    ∙ ap (λ s. encode (header frequency ++ s)) (sym (samples_slots-append log out))

zero_entry-IsEntry : IsEntry zero_entry
unfolding zero_entry
zero_entry-IsEntry = record {
  size = length-replicate max_stack_depth 0;
  shallow = omega arith;
  words = All-replicate IsSlot max_stack_depth 0 (omega arith);
  word_count = omega arith;
  deep = λ h. h;
}

pub new_table-IsTable : IsTable new_table
unfolding new_table
new_table-IsTable = record {
  rows = length-replicate buckets _;
  width = All-replicate _ buckets _ (length-replicate associativity zero_entry);
  entries =
      All-replicate (All IsEntry) buckets _
        (All-replicate IsEntry associativity zero_entry zero_entry-IsEntry);
}

bucket_samples-zero : (n : ℕ) → bucket_samples (replicate n zero_entry) ≡ []
unfolding bucket_samples replicate live_sample zero_entry
bucket_samples-zero zero = refl
bucket_samples-zero (suc n) = bucket_samples-zero n

table_samples-zero : (n m : ℕ) → table_samples (replicate n (replicate m zero_entry)) ≡ []
unfolding table_samples replicate
table_samples-zero zero m = refl
table_samples-zero (suc n) m = rw (bucket_samples-zero m) (table_samples-zero n m)

-- A new table holds no sample.
pub table_samples-new : table_samples new_table ≡ []
unfolding new_table
table_samples-new = table_samples-zero buckets associativity
