-- ===== src/ProfileData/Add/Replace.antt =====
-- The part of `Add` that runs when no entry holds the stack, and both parts together.
use javaprofiler.Base.{
  ℕ, ◌+◌, ◌<◌, ◌≡◌, List, [], length, length-set, get_elem?, set, take, All, All-set, All-get_elem?,
  ltb, none, ◌≤◌, some, arith, Bool-cases, Option-cases, inl, inr, append-nil, ◌%◌, ◌^◌,
}
use javaprofiler.Run.{Returns}
use javaprofiler.ProfileData.{Entry, Bucket, World, max_stack_depth}
use javaprofiler.ProfileData.Sample.{
  Sample, live_sample, live_sample-IsSample, samples_slots, IsEntry, IsSample,
}
use javaprofiler.ProfileData.Tally.{tally-set_entry, tally-live_sample}
use javaprofiler.ProfileData.Emit.{IsOpen, Emits, Emits-refl, stream}
use javaprofiler.ProfileData.Drain.{evict-Emits}
use javaprofiler.ProfileData.Add.{
  count_hit, smallest, reuse_entry, evict_victim, at_index, replace_smallest, add_to_bucket,
}
use javaprofiler.ProfileData.Add.Match.{take-copy_stack, reuse_entry-IsEntry}
use javaprofiler.ProfileData.Add.Smallest.{smallest-IsLeast}
use javaprofiler.ProfileData.Add.Unique.{Places, hit-Places, set-Places, count_hit-none}
use javaprofiler.ProfileData.Add.Hit.{BucketStep, CanAdd, count_hit-BucketStep}

-- What a call on a bucket did: the samples that it moved to the stream, and the bucket's change.
pub record AddStep (path key : List ℕ) (es : Bucket) (w : World) (r : Bucket × World) : Type 0 where
  pub out : List Sample
  pub samples : All IsSample out
  pub bucket : BucketStep key out es r.0
  pub emits : Emits path (samples_slots out) w r.1
  pub places : Places key es r.0

-- Counting an eviction changes nothing else.
evict_victim-Emits :
    (path : List ℕ) (e : Entry) (w : World)
    → IsOpen path w
    → IsEntry e
    → Returns (evict_victim e w) (Emits path (samples_slots (live_sample e)) w)
unfolding evict_victim live_sample samples_slots stream
evict_victim-Emits path e w o v = elim (Bool-cases (ltb 0 e.count)) [
  | inr dead ↦ (w, rw dead, rw dead (Emits-refl path w o))
  | inl live ↦
      let counted = record w {
        profile = record w.profile { evictions = (w.profile.evictions + 1) % 2 ^ 32 };
      } in
      let o' : IsOpen path counted = record {
        fd = o.fd;
        out = o.out;
        target = o.target;
        reliable = o.reliable;
        room = o.room;
        sized = o.sized;
      } in
      let (w', run, m) = evict-Emits path e counted o' v in
      (
        w',
        rw live run,
        rw (live, append-nil)
            (record {
              opened = m.opened;
              grown = m.grown;
              hash = m.hash;
              count = m.count;
              fname = m.fname;
              others = m.others;
            }),
      )
]

reuse-BucketStep :
    (d : ℕ) (stack : List ℕ) (es : Bucket) (i : ℕ) (e : Entry)
    → CanAdd d stack es
    → get_elem? es i ≡ some e
    → BucketStep (take d stack) (live_sample e) es (set es i (reuse_entry d stack e))
unfolding reuse_entry
reuse-BucketStep d stack es i e c found =
    let v = All-get_elem? IsEntry es i c.entries found in
    record {
      size = length-set es i (reuse_entry d stack e);
      entries =
          All-set IsEntry es i (reuse_entry d stack e) c.entries
            (reuse_entry-IsEntry d stack e v c.pos c.shallow c.words);
      tallies = λ k. ground (
        arith,
        tally-set_entry k es i (reuse_entry d stack e) found,
        tally-live_sample k e,
        take-copy_stack d stack e.stack c.long (omega (arith, v.size, c.shallow)),
      );
    }

reuse_entry-take :
    (d : ℕ) (stack : List ℕ) (e : Entry)
    → IsEntry e
    → d ≤ length stack
    → d ≤ max_stack_depth
    → take (reuse_entry d stack e).depth (reuse_entry d stack e).stack ≡ take d stack
unfolding reuse_entry
reuse_entry-take d stack e v long shallow =
    take-copy_stack d stack e.stack long (omega (arith, v.size, shallow))

-- The first entry with the smallest count gives way, and its sample, if it holds one, is emitted.
pub replace_smallest-AddStep :
    (path : List ℕ) (d : ℕ) (stack : List ℕ) (es : Bucket) (w : World)
    → IsOpen path w
    → CanAdd d stack es
    → 0 < length es
    → count_hit d stack es ≡ none
    → Returns (replace_smallest d stack es w) (AddStep path (take d stack) es w)
unfolding replace_smallest
replace_smallest-AddStep path d stack es w o c h missed =
    let (e, least) = smallest-IsLeast es h in
    let v = All-get_elem? IsEntry es (smallest es) c.entries least.found in
    let (w', run, m) = evict_victim-Emits path e w o v in
    (
      (set es (smallest es) (reuse_entry d stack e), w'),
      rw (least.found, at_index, run),
      record {
        out = live_sample e;
        samples = live_sample-IsSample e v;
        bucket = reuse-BucketStep d stack es (smallest es) e c least.found;
        emits = m;
        places =
            set-Places (take d stack) es (smallest es) e (reuse_entry d stack e) least.found
              (reuse_entry-take d stack e v c.long c.shallow) (count_hit-none d stack es c missed);
      },
    )

-- Add on a non-empty bucket of well-formed entries whose count for the stack does not overflow, on
-- an open collector, with a positive depth within the limit and an array of 64-bit slots that
-- reaches as far, returns; the bucket keeps its size and its well-formed entries, its tally and
-- what it moved to the stream grow together by one sample of the stack, and the stack then has one
-- entry, if every stack had at most one, while no other stack gets one.
pub add_to_bucket-AddStep :
    (path : List ℕ) (d : ℕ) (stack : List ℕ) (es : Bucket) (w : World)
    → IsOpen path w
    → CanAdd d stack es
    → 0 < length es
    → Returns (add_to_bucket d stack es w) (AddStep path (take d stack) es w)
unfolding add_to_bucket samples_slots
add_to_bucket-AddStep path d stack es w o c h = elim (Option-cases (count_hit d stack es)) [
  | inl missed ↦
      rw (missed, add_to_bucket) (replace_smallest-AddStep path d stack es w o c h missed)
  | inr (es', hit) ↦ (
    (es', w),
    rw (hit, add_to_bucket),
    record {
      out = [];
      samples = tt;
      bucket = count_hit-BucketStep d stack es es' c hit;
      emits = Emits-refl path w o;
      places = hit-Places d stack es es' c hit;
    },
  )
]
