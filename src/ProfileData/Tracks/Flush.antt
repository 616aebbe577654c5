-- ===== src/ProfileData/Tracks/Flush.antt =====
-- `ProfileData::FlushTable` and the invariant of an enabled collector.
use javaprofiler.Base.{
  ℕ, ◌≡◌, sym, ap, ◌∙◌, subst, ℤ, List, [], ◌++◌, All-append, arith, append-nil,
}
use javaprofiler.Run.{Returns}
use javaprofiler.Slot.{encode}
use javaprofiler.ProfileData.{Bucket, World, header}
use javaprofiler.ProfileData.FlushTable.{flush_table}
use javaprofiler.ProfileData.Sample.{
  Sample, IsSample, table_samples, table_samples-IsSample, samples_slots,
}
use javaprofiler.ProfileData.Tally.{tally, occurs, tally-append}
use javaprofiler.ProfileData.Emit.{
  IsOpen, IsOpen-enabled, Emits, stream, stream-empty, flush_evicted-Emits,
}
use javaprofiler.ProfileData.Drain.{flush_buckets-Emits, clear_table}
use javaprofiler.ProfileData.Clear.{clear_table-IsTable, table_samples-clear}
use javaprofiler.ProfileData.Placed.{IsPlaced, clear_table-IsPlaced}
use javaprofiler.ProfileData.Tracks.{IsTable, Tracks, written-append}

-- The collector goes on, and the file alone holds every sample.
pub record Flushed (path : List ℕ) (frequency : ℤ) (samples : List (List ℕ)) (w : World)
    : Type 0 where
  pub tracks : Tracks path frequency samples w
  pub contents : w.os.files path ≡ encode (header frequency ++ samples_slots tracks.log)
  pub exact : (k : List ℕ) → tally k tracks.log ≡ occurs k samples

-- The state after the loops wrote the cleared table back.
abbrev with_table : List Bucket → World → World
with_table bs w = record w { profile = record w.profile { hash = bs } }

with_table-IsOpen :
    (path : List ℕ) (bs : List Bucket) (w : World) → IsOpen path w → IsOpen path (with_table bs w)
with_table-IsOpen path bs w o = record {
  fd = o.fd;
  out = o.out;
  target = o.target;
  reliable = o.reliable;
  room = o.room;
  sized = o.sized;
}

module _ (path : List ℕ) (frequency : ℤ) (samples : List (List ℕ)) (w : World)
    (t : Tracks path frequency samples w) where
  flushed_log : List Sample
  flushed_log = t.log ++ table_samples w.profile.hash

  flushed_exact : (k : List ℕ) → tally k flushed_log ≡ occurs k samples
  unfolding flushed_log
  flushed_exact k =
      omega (arith, tally-append k t.log (table_samples w.profile.hash), t.conserved k)

  flushed_written :
      (bs : List Bucket) (w₁ w₂ : World)
      → Emits path (samples_slots (table_samples w.profile.hash)) w w₁
      → Emits path [] (with_table bs w₁) w₂
      → stream path w₂ ≡ encode (header frequency ++ samples_slots flushed_log)
  unfolding flushed_log stream encode
  flushed_written bs w₁ w₂ e₁ e₂ =
      e₂.grown
      ∙ append-nil (stream path w₁)
      ∙ written-append path frequency t.log (table_samples w.profile.hash) {w = w} {w' = w₁}
          t.written e₁

  Flushed-table :
      (bs : List Bucket) (w₁ w₂ : World)
      → bs ≡ clear_table w.profile.hash
      → Emits path (samples_slots (table_samples w.profile.hash)) w w₁
      → Emits path [] (with_table bs w₁) w₂
      → w₂.profile.evict ≡ []
      → Flushed path frequency samples w₂
  unfolding flushed_log tally
  Flushed-table bs w₁ w₂ clear e₁ e₂ empty =
      let hash = e₂.hash ∙ clear in
      let tracks : Tracks path frequency samples w₂ = record {
        opened = e₂.opened;
        named = e₂.fname ∙ e₁.fname ∙ t.named;
        counted = e₂.count ∙ e₁.count ∙ t.counted;
        table = subst IsTable (sym hash) (clear_table-IsTable w.profile.hash t.table);
        placed = subst (IsPlaced 0) (sym hash) (clear_table-IsPlaced 0 w.profile.hash t.placed);
        log = flushed_log;
        logged =
            All-append IsSample t.log (table_samples w.profile.hash) t.logged
              (table_samples-IsSample w.profile.hash t.table.entries);
        written = flushed_written bs w₁ w₂ e₁ e₂;
        conserved = λ k. omega (
          arith,
          ap (λ h. tally k (table_samples h)) hash,
          ap (tally k) (table_samples-clear w.profile.hash),
          flushed_exact k,
        );
      } in
      record {
        tracks = tracks;
        contents = sym (stream-empty path w₂ empty) ∙ flushed_written bs w₁ w₂ e₁ e₂;
        exact = flushed_exact;
      }

  -- FlushTable on an enabled collector, where no write to come fails, returns, keeps the invariant
  -- with the same samples, and the file alone then holds all of them.
  pub flush_table-Flushed : Returns (flush_table w) (Flushed path frequency samples)
  unfolding flush_table
  flush_table-Flushed =
      let ((bs, w₁), run₁, (clear, e₁)) =
        flush_buckets-Emits path w.profile.hash w t.opened t.table.entries in
      let (w₂, run₂, (e₂, empty)) =
        flush_evicted-Emits path (with_table bs w₁) (with_table-IsOpen path bs w₁ e₁.opened) in
      (
        w₂,
        rw (IsOpen-enabled path w t.opened, run₁, run₂),
        Flushed-table bs w₁ w₂ clear e₁ e₂ empty,
      )
