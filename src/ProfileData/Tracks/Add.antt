-- ===== src/ProfileData/Tracks/Add.antt =====
-- `ProfileData::Add` and the invariant of an enabled collector.
use javaprofiler.Base.{
  ℕ, zero, suc, ◌+◌, ◌%◌, ◌^◌, ◌≤◌, ◌<◌, ◌≡◌, refl, sym, ap, ◌∙◌, ℤ, pos, List, [], ◌∷◌, ◌++◌,
  length, All, All-append, All-get_elem?, All-set, arith, some, take, length-set, get_elem?,
  get_elem?-some, set, subst, word_mod,
}
use javaprofiler.Run.{Returns, ok}
use javaprofiler.Slot.{IsSlot}
use javaprofiler.ProfileData.{Bucket, World, buckets}
use javaprofiler.ProfileData.Sample.{IsSample, IsEntry, table_samples}
use javaprofiler.ProfileData.Tally.{
  tally, occurs, occurs-le-length, tally-append, tally-set_bucket, tally-bucket_le,
}
use javaprofiler.ProfileData.Emit.{IsOpen, IsOpen-enabled, stream}
use javaprofiler.ProfileData.Placed.{IsPlaced, set-IsPlaced, hash_stack-take}
use javaprofiler.ProfileData.Tracks.{IsTable, Tracks, written-append}
use javaprofiler.ProfileData.Add.{hash_stack, at_index, add_sample, add, limit_depth}
use javaprofiler.ProfileData.Add.Hit.{CanAdd}
use javaprofiler.ProfileData.Add.Replace.{AddStep, add_to_bucket-AddStep}

-- The hash loop stays within the caller's array.
pub hash_stack-returns :
    (d : ℕ) (stack : List ℕ) (h : ℕ)
    → d ≤ length stack
    → Returns (hash_stack d stack h) λ r. Unit {0}
unfolding hash_stack
hash_stack-returns zero stack h k = (h, refl, tt)
hash_stack-returns (suc d) [] h k = absurd (omega arith)
hash_stack-returns (suc d) (s ∷ stack) h k = hash_stack-returns d stack _ (omega arith)

-- What `Add` may assume of its caller, and that the number of samples fits a slot.
pub record IsCall (depth : ℕ) (stack : List ℕ) (samples : List (List ℕ)) : Type 0 where
  pub pos : 0 < depth
  pub long : limit_depth depth ≤ length stack
  pub words : All IsSlot stack
  pub countable : length samples + 1 < word_mod

-- A bucket's change is a change of the table.
set-IsTable :
    (bs : List Bucket) (i : ℕ) (b b' : Bucket)
    → IsTable bs
    → get_elem? bs i ≡ some b
    → length b' ≡ length b
    → All IsEntry b'
    → IsTable (set bs i b')
set-IsTable bs i b b' t found same v = record {
  rows = length-set bs i b' ∙ t.rows;
  width = All-set _ bs i b' t.width (same ∙ All-get_elem? _ bs i t.width found);
  entries = All-set (All IsEntry) bs i b' t.entries v;
}

counted-IsOpen :
    (path : List ℕ) (w : World) (n : ℕ)
    → IsOpen path w
    → IsOpen path (record w { profile = record w.profile { count = n } })
counted-IsOpen path w n o = record {
  fd = o.fd;
  out = o.out;
  target = o.target;
  reliable = o.reliable;
  room = o.room;
  sized = o.sized;
}

-- The state after the count was raised.
abbrev counted : World → World
counted w = record w { profile = record w.profile { count = (w.profile.count + 1) % 2 ^ 32 } }

-- The state after the bucket was written back.
abbrev with_bucket : ℕ → Bucket × World → World
with_bucket i r = record r.1 { profile = record r.1.profile { hash = set r.1.profile.hash i r.0 } }

module _ (path : List ℕ) (frequency : ℤ) (samples : List (List ℕ)) (w : World)
    (t : Tracks path frequency samples w) where
  call-CanAdd :
      (depth : ℕ) (stack : List ℕ) (i : ℕ) (b : Bucket)
      → IsCall depth stack samples
      → get_elem? w.profile.hash i ≡ some b
      → CanAdd (limit_depth depth) stack b
  call-CanAdd depth stack i b c found =
      let key = take (limit_depth depth) stack in
      record {
        pos = ground (arith, c.pos);
        shallow = ground arith;
        long = c.long;
        words = c.words;
        entries = All-get_elem? (All IsEntry) w.profile.hash i t.table.entries found;
        countable = omega (
          arith,
          tally-bucket_le key w.profile.hash i found,
          t.conserved key,
          occurs-le-length key samples,
          c.countable,
        );
      }

  step-Tracks :
      (key : List ℕ) (h : ℕ) (b : Bucket) (r : Bucket × World)
      → hash_stack (length key) key 0 ≡ ok h
      → get_elem? w.profile.hash (h % buckets) ≡ some b
      → AddStep path key b (counted w) r
      → Tracks path frequency (key ∷ samples) (with_bucket (h % buckets) r)
  unfolding stream occurs
  step-Tracks key h b r hashed found s =
      let i = h % buckets in
      let e = s.emits in
      let o = e.opened in
      let bs = w.profile.hash in
      let moved : set r.1.profile.hash i r.0 ≡ set bs i r.0 = ap (λ h. set h i r.0) e.hash in
      record {
        opened = record {
          fd = o.fd;
          out = o.out;
          target = o.target;
          reliable = o.reliable;
          room = o.room;
          sized = o.sized;
        };
        named = e.fname ∙ t.named;
        counted = omega (arith, e.count, t.counted);
        table =
            subst IsTable (sym moved)
              (set-IsTable bs i b r.0 t.table found s.bucket.size s.bucket.entries);
        placed =
            subst (IsPlaced 0) (sym moved)
              (set-IsPlaced key h bs b r.0 hashed t.placed found s.places);
        log = t.log ++ s.out;
        logged = All-append IsSample t.log s.out t.logged s.samples;
        written = written-append path frequency t.log s.out {w = counted w} {w' = r.1} t.written e;
        conserved = λ k. omega (
          arith,
          ap (λ h. tally k (table_samples h)) moved,
          tally-append k t.log s.out,
          tally-set_bucket k bs i r.0 found,
          s.bucket.tallies k,
          t.conserved k,
        );
      }

  add_sample-Tracks :
      (depth : ℕ) (stack : List ℕ)
      → IsCall depth stack samples
      → Returns
          (add_sample (limit_depth depth) stack w)
          (Tracks path frequency (take (limit_depth depth) stack ∷ samples))
  unfolding add_sample
  add_sample-Tracks depth stack c =
      let d = limit_depth depth in
      let (h, hashed, _) = hash_stack-returns d stack 0 c.long in
      let i = h % buckets in
      let (b, found) = get_elem?-some w.profile.hash i (omega (arith, t.table.rows)) in
      let (r, run, s) =
        add_to_bucket-AddStep path d stack b (counted w)
          (counted-IsOpen path w ((w.profile.count + 1) % 2 ^ 32) t.opened)
          (call-CanAdd depth stack i b c found)
          (omega (arith, All-get_elem? _ w.profile.hash i t.table.width found)) in
      (
        with_bucket i r,
        rw (hashed, found, at_index, run),
        step-Tracks (take d stack) h b r (hash_stack-take d stack 0 c.long ∙ hashed) found s,
      )

  -- A call of Add with a positive depth and an array of 64-bit slots that reaches as far, on an
  -- enabled collector with fewer than 2 ^ 64 - 1 samples, where no write to come fails, returns,
  -- keeps the collector's invariant, and the stream and the table then hold one more sample of the
  -- stack, cut to 64 slots.
  pub add-Tracks :
      (depth : ℕ) (stack : List ℕ)
      → IsCall depth stack samples
      → Returns
          (add (pos depth) stack w)
          (Tracks path frequency (take (limit_depth depth) stack ∷ samples))
  unfolding add
  add-Tracks zero stack c = absurd (omega (arith, c.pos))
  add-Tracks (suc n) stack c =
      rw (IsOpen-enabled path w t.opened) (add_sample-Tracks (suc n) stack c)
