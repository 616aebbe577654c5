-- ===== src/ProfileData/Drain.antt =====
-- `Evict`, and the loops of `Stop` and `FlushTable` that evict every live entry of the table.
use javaprofiler.Base.{
  ℕ, ◌+◌, ◌≡◌, refl, List, [], ◌∷◌, append-nil, All, ltb, if◌then◌else◌, arith, Bool-cases, inl,
  inr,
}
use javaprofiler.Run.{ok, Returns}
use javaprofiler.ProfileData.{Entry, Bucket, World, evict}
use javaprofiler.ProfileData.Stop.{evict_bucket, evict_table}
use javaprofiler.ProfileData.FlushTable.{flush_entry, flush_bucket, flush_buckets}
use javaprofiler.ProfileData.Emit.{
  IsOpen, Emits, Emits-refl, Emits-trans, make_room-Emits, push_slot-Emits, push_stack-Emits,
}
use javaprofiler.ProfileData.Sample.{
  sample_slots, entry_sample, samples_slots, samples_slots-append, live_sample, bucket_samples,
  table_samples, IsEntry, length-entry_sample,
}

module _ (path : List ℕ) where
  -- Evict of a well-formed entry on an open collector, where no write to come fails, returns, so
  -- that no store leaves the buffer, and appends exactly the entry's sample to the stream of file
  -- and buffer.
  pub evict-Emits :
      (e : Entry) (w : World)
      → IsOpen path w
      → IsEntry e
      → Returns (evict e w) (Emits path (sample_slots (entry_sample e)) w)
  unfolding evict
  evict-Emits e w o v =
      let (w₁, run₁, (e₁, room₁)) =
        make_room-Emits path (e.depth + 2) w o (omega (arith, v.shallow)) in
      let (w₂, run₂, (e₂, room₂)) = push_slot-Emits path e.count w₁ e₁.opened (omega arith) in
      let (w₃, run₃, (e₃, room₃)) = push_slot-Emits path e.depth w₂ e₂.opened (omega arith) in
      let (w₄, run₄, e₄) =
        push_stack-Emits path e.depth e.stack w₃ e₃.opened (omega (arith, v.size, v.shallow))
          (omega arith) in
      (
        w₄,
        rw (run₁, run₂, run₃, run₄),
        rw (length-entry_sample e v) (
            Emits-trans path [] _ e₁
              (Emits-trans path (e.count ∷ []) _ e₂ (Emits-trans path (e.depth ∷ []) _ e₃ e₄))),
      )

  evict_live-Emits :
      (e : Entry) (w : World)
      → IsOpen path w
      → IsEntry e
      → Returns
          (if ltb 0 e.count then evict e w else ok w)
          (Emits path (samples_slots (live_sample e)) w)
  unfolding live_sample samples_slots
  evict_live-Emits e w o v = elim (Bool-cases (ltb 0 e.count)) [
    | inl live ↦ rw (live, append-nil) (evict-Emits e w o v)
    | inr dead ↦ (w, rw dead, rw dead (Emits-refl path w o))
  ]

  evict_bucket-Emits :
      (es : Bucket) (w : World)
      → IsOpen path w
      → All IsEntry es
      → Returns (evict_bucket es w) (Emits path (samples_slots (bucket_samples es)) w)
  unfolding evict_bucket bucket_samples samples_slots
  evict_bucket-Emits [] w o v = (w, refl, Emits-refl path w o)
  evict_bucket-Emits (e ∷ es) w o v =
      let (w₁, run₁, e₁) = evict_live-Emits e w o v.0 in
      let (w₂, run₂, e₂) = evict_bucket-Emits es w₁ e₁.opened v.1 in
      (
        w₂,
        rw (run₁, run₂),
        rw (samples_slots-append (live_sample e) (bucket_samples es)) (Emits-trans path _ _ e₁ e₂),
      )

  -- The loops of Stop return on an open collector and well-formed buckets, and append their live
  -- entries to the stream, in order.
  pub evict_table-Emits :
      (bs : List Bucket) (w : World)
      → IsOpen path w
      → All (All IsEntry) bs
      → Returns (evict_table bs w) (Emits path (samples_slots (table_samples bs)) w)
  unfolding evict_table table_samples samples_slots
  evict_table-Emits [] w o v = (w, refl, Emits-refl path w o)
  evict_table-Emits (b ∷ bs) w o v =
      let (w₁, run₁, e₁) = evict_bucket-Emits b w o v.0 in
      let (w₂, run₂, e₂) = evict_table-Emits bs w₁ e₁.opened v.1 in
      (
        w₂,
        rw (run₁, run₂),
        rw (samples_slots-append (bucket_samples b) (table_samples bs))
            (Emits-trans path _ _ e₁ e₂),
      )

-- The table that `FlushTable` leaves: its live entries are cleared.
abbrev pub clear_entry : Entry → Entry
clear_entry e = if ltb 0 e.count then record e { depth = 0; count = 0 } else e

unfoldable pub clear_bucket : Bucket → Bucket
clear_bucket [] = []
clear_bucket (e ∷ es) = clear_entry e ∷ clear_bucket es

unfoldable pub clear_table : List Bucket → List Bucket
clear_table [] = []
clear_table (b ∷ bs) = clear_bucket b ∷ clear_table bs

module _ (path : List ℕ) where
  flush_entry-Emits :
      (e : Entry) (w : World)
      → IsOpen path w
      → IsEntry e
      → Returns
          (flush_entry e w)
          λ r. (r.0 ≡ clear_entry e) × Emits path (samples_slots (live_sample e)) w r.1
  unfolding flush_entry live_sample samples_slots
  flush_entry-Emits e w o v = elim (Bool-cases (ltb 0 e.count)) [
    | inl live ↦
        let (w', run, m) = evict-Emits path e w o v in
        (
          (record e { depth = 0; count = 0 }, w'),
          rw (live, run),
          (rw live, rw (live, append-nil) m),
        )
    | inr dead ↦ ((e, w), rw dead, (rw dead, rw dead (Emits-refl path w o)))
  ]

  flush_bucket-Emits :
      (es : Bucket) (w : World)
      → IsOpen path w
      → All IsEntry es
      → Returns
          (flush_bucket es w)
          λ r. (r.0 ≡ clear_bucket es) × Emits path (samples_slots (bucket_samples es)) w r.1
  unfolding flush_bucket clear_bucket bucket_samples samples_slots
  flush_bucket-Emits [] w o v = (([], w), refl, (refl, Emits-refl path w o))
  flush_bucket-Emits (e ∷ es) w o v =
      let ((e', w₁), run₁, (c₁, e₁)) = flush_entry-Emits e w o v.0 in
      let ((es', w₂), run₂, (c₂, e₂)) = flush_bucket-Emits es w₁ e₁.opened v.1 in
      (
        (e' ∷ es', w₂),
        rw (run₁, run₂),
        (
          rw (c₁, c₂),
          rw (samples_slots-append (live_sample e) (bucket_samples es))
              (Emits-trans path _ _ e₁ e₂),
        ),
      )

  -- The loops of FlushTable return on an open collector and well-formed buckets, append their live
  -- entries to the stream in order, and leave the table with those entries cleared.
  pub flush_buckets-Emits :
      (bs : List Bucket) (w : World)
      → IsOpen path w
      → All (All IsEntry) bs
      → Returns
          (flush_buckets bs w)
          λ r. (r.0 ≡ clear_table bs) × Emits path (samples_slots (table_samples bs)) w r.1
  unfolding flush_buckets clear_table table_samples samples_slots
  flush_buckets-Emits [] w o v = (([], w), refl, (refl, Emits-refl path w o))
  flush_buckets-Emits (b ∷ bs) w o v =
      let ((b', w₁), run₁, (c₁, e₁)) = flush_bucket-Emits b w o v.0 in
      let ((bs', w₂), run₂, (c₂, e₂)) = flush_buckets-Emits bs w₁ e₁.opened v.1 in
      (
        (b' ∷ bs', w₂),
        rw (run₁, run₂),
        (
          rw (c₁, c₂),
          rw (samples_slots-append (bucket_samples b) (table_samples bs))
              (Emits-trans path _ _ e₁ e₂),
        ),
      )
