-- ===== src/ProfileData/Abstract/Refines.antt =====
-- profiledata.cc as an implementation of what profiledata.h promises.
use javaprofiler.Base.{
  ℕ, ◌<◌, ◌≡◌, refl, ap, ◌∙◌, ℤ, false, true, none, some, List, [], ◌∷◌, ◌++◌, length, take, arith,
  list_eq, Option-cases, inl, inr, ◌^◌,
}
use javaprofiler.Run.{ok, Returns}
use javaprofiler.Os.{open_answer, close_file}
use javaprofiler.Os.FdWrite.{IsReliable}
use javaprofiler.Slot.{encode}
use javaprofiler.ProfileData.{World, header, enabled, start}
use javaprofiler.ProfileData.Sample.{Sample, samples_slots}
use javaprofiler.ProfileData.Tally.{tally, occurs}
use javaprofiler.ProfileData.Stop.{stop, reset, cleared}
use javaprofiler.ProfileData.FlushTable.{flush_table}
use javaprofiler.ProfileData.Add.{add, limit_depth}
use javaprofiler.ProfileData.Bag.{Bag, bag_of, insert, occurrences, size}
use javaprofiler.ProfileData.Emit.{IsOpen-enabled}
use javaprofiler.ProfileData.Tracks.{Tracks}
use javaprofiler.ProfileData.Tracks.Add.{IsCall, add-Tracks}
use javaprofiler.ProfileData.Tracks.Control.{
  start-Tracks, start-refused, refused, reset-open, Finished, stop-Finished,
}
use javaprofiler.ProfileData.Tracks.Flush.{flush_table-Flushed}
use javaprofiler.ProfileData.Abstract.{
  Operation, starts, adds, flushes, stops, resets, perform, Spec, disabled, collecting, Promises,
  opens, refuses, keeps, records, writes, finishes, discards, ignores_add, ignores_flush,
  ignores_stop, ignores_reset, IsAllowed, Represents,
}
use javaprofiler.Reader.{read_file, done, Observation}
use javaprofiler.Reader.RoundTrip.{observed, Finished-ReadsBack}

-- What the caller of the reader finds in a file, as a bag.
abbrev pub Holds : List ℕ → Bag → Type 0
Holds bytes samples =
    (obs : List Observation) × (read_file bytes ≡ done obs)
    × ((k : List ℕ) → observed k obs ≡ occurrences k samples)

-- What becomes of the files: a reset writes to none; after a flush the file holds every sample, and
-- after a stop what the Java reader needs, while the other files stay. A collector that is disabled
-- changes nothing, but for what a start opens, and neither does a start of one that is enabled.
abbrev pub Effect : Operation → Spec → World → World → Type 0
Effect resets (collecting path frequency samples) w w' = (q : List ℕ) → w'.os.files q ≡ w.os.files q
Effect stops (collecting path frequency samples) w w' =
    (size samples < 2 ^ 31 → Holds (w'.os.files path) samples)
    × ((q : List ℕ) → list_eq path q ≡ false → w'.os.files q ≡ w.os.files q)
Effect flushes (collecting path frequency samples) w w' =
    (log : List Sample) × (w'.os.files path ≡ encode (header frequency ++ samples_slots log))
    × ((k : List ℕ) → tally k log ≡ occurrences k samples)
Effect (starts fname rate) (collecting path frequency samples) w w' = w' ≡ w
Effect (starts fname rate) disabled w w' = Unit {0}
Effect (adds depth stack) (collecting path frequency samples) w w' = Unit {0}
Effect (adds depth stack) disabled w w' = w' ≡ w
Effect flushes disabled w w' = w' ≡ w
Effect stops disabled w w' = w' ≡ w
Effect resets disabled w w' = w' ≡ w

-- A step of the promise, which a member keeps.
abbrev pub Refined : Operation → Spec → World → Type 0
Refined op s w =
    Returns (perform op w)
      λ r. (s' : Spec) × Promises op s r.0 s' × Represents s' r.1 × Effect op s w r.1

refines-disabled :
    (op : Operation) (w : World)
    → enabled w ≡ false
    → IsReliable w.os.writes
    → IsAllowed op disabled
    → Refined op disabled w
unfolding perform start add flush_table stop reset enabled
refines-disabled (starts path frequency) w off reliable nonzero =
    elim (Option-cases (open_answer w.os.opens)) [
      | inl failed ↦ (
        (some false, refused w),
        rw (start-refused path frequency w off failed) refl,
        (disabled, refuses path frequency, (off, reliable), tt),
      )
      | inr (fd, answer) ↦
          let (r, run, (yes', t)) = start-Tracks path frequency w fd off answer nonzero reliable in
          (
            (some true, r.1),
            rw (run, yes') refl,
            (collecting path frequency (bag_of []), opens path frequency, ([], refl, t), tt),
          )
    ]
refines-disabled (adds depth stack) w off reliable allowed =
    ((none, w), rw off refl, (disabled, ignores_add depth stack, (off, reliable), refl))
refines-disabled flushes w off reliable allowed =
    ((none, w), rw off refl, (disabled, ignores_flush, (off, reliable), refl))
refines-disabled stops w off reliable allowed =
    ((none, w), rw off refl, (disabled, ignores_stop, (off, reliable), refl))
refines-disabled resets w off reliable allowed =
    ((none, w), rw off refl, (disabled, ignores_reset, (off, reliable), refl))

module _ (path : List ℕ) (frequency : ℤ) (samples : Bag) (w : World) (stacks : List (List ℕ))
    (same : bag_of stacks ≡ samples) (t : Tracks path frequency stacks w) where
  same_count : (k : List ℕ) → occurs k stacks ≡ occurrences k samples
  unfolding occurrences
  same_count k = ap (occurrences k) same

  same_size : length stacks ≡ size samples
  unfolding size
  same_size = ap size same

  refines-add :
      (depth : ℕ) (stack : List ℕ)
      → IsAllowed (adds depth stack) (collecting path frequency samples)
      → Refined (adds depth stack) (collecting path frequency samples) w
  unfolding perform insert
  refines-add depth stack allowed =
      let call : IsCall depth stack stacks = record {
        pos = allowed.0;
        long = allowed.1;
        words = allowed.2;
        countable = omega (arith, same_size, allowed.3);
      } in
      let (w', run, t') = add-Tracks path frequency stacks w t depth stack call in
      let key = take (limit_depth depth) stack in
      (
        (none, w'),
        rw run refl,
        (
          collecting path frequency (insert key samples),
          records depth stack path frequency samples,
          (key ∷ stacks, ap (insert key) same, t'),
          tt,
        ),
      )

  refines-flush : Refined flushes (collecting path frequency samples) w
  unfolding perform
  refines-flush =
      let (w', run, f) = flush_table-Flushed path frequency stacks w t in
      (
        (none, w'),
        rw run refl,
        (
          collecting path frequency samples,
          writes path frequency samples,
          (stacks, same, f.tracks),
          (f.tracks.log, f.contents, λ k. f.exact k ∙ same_count k),
        ),
      )

  stop-Holds :
      (w' : World)
      → Finished path frequency stacks w'
      → size samples < 2 ^ 31
      → Holds (w'.os.files path) samples
  stop-Holds w' f few =
      let (obs, run, exact) =
        Finished-ReadsBack path frequency stacks w' f (omega (arith, same_size)) in
      (obs, run, λ k. exact k ∙ same_count k)

  refines-stop : Refined stops (collecting path frequency samples) w
  unfolding perform
  refines-stop =
      let (w', run, (f, others)) = stop-Finished path frequency stacks w t in
      (
        (none, w'),
        rw run refl,
        (disabled, finishes path frequency samples, (f.off, f.reliable), (stop-Holds w' f, others)),
      )

  refines-reset : Refined resets (collecting path frequency samples) w
  unfolding perform reset enabled close_file
  refines-reset =
      let w' : World = record { profile = cleared w.profile; os = close_file t.opened.fd w.os } in
      (
        (none, w'),
        ap (λ (v : World). ok (none, v)) (reset-open w t.opened.fd t.opened.out),
        (disabled, discards path frequency samples, (refl, t.opened.reliable), λ q. refl),
      )

  refines-start :
      (fname : List ℕ) (rate : ℤ)
      → Refined (starts fname rate) (collecting path frequency samples) w
  unfolding perform start
  refines-start fname rate = (
    (some false, w),
    rw (IsOpen-enabled path w t.opened) refl,
    (
      collecting path frequency samples,
      keeps path fname rate frequency samples,
      (stacks, same, t),
      refl,
    ),
  )

refines-collecting :
    (op : Operation) (path : List ℕ) (frequency : ℤ) (samples : Bag) (w : World)
    (stacks : List (List ℕ))
    → bag_of stacks ≡ samples
    → Tracks path frequency stacks w
    → IsAllowed op (collecting path frequency samples)
    → Refined op (collecting path frequency samples) w
refines-collecting (starts fname rate) path frequency samples w stacks same t allowed =
    refines-start path frequency samples w stacks same t fname rate
refines-collecting (adds depth stack) path frequency samples w stacks same t allowed =
    refines-add path frequency samples w stacks same t depth stack allowed
refines-collecting flushes path frequency samples w stacks same t allowed =
    refines-flush path frequency samples w stacks same t
refines-collecting stops path frequency samples w stacks same t allowed =
    refines-stop path frequency samples w stacks same t
refines-collecting resets path frequency samples w stacks same t allowed =
    refines-reset path frequency samples w stacks same t

-- From a state that represents an abstract one, where no write to come fails, each of Start, Add,
-- FlushTable, Stop and Reset, called as its caller owes, returns what the operation promises (Start
-- true exactly when it enables the collector) in a state that represents one which the operation
-- promises; Reset changes no file; after FlushTable on an enabled collector the file's log holds
-- every stack as often as the bag of samples, and after Stop so does what the Java reader finds,
-- for fewer than 2 ^ 31 samples, while the other files stay; on a disabled collector Add,
-- FlushTable, Stop and Reset change nothing, and neither does Start on an enabled one.
pub perform-Promises :
    (op : Operation) (s : Spec) (w : World) → Represents s w → IsAllowed op s → Refined op s w
perform-Promises op disabled w r allowed = refines-disabled op w r.0 r.1 allowed
perform-Promises op (collecting path frequency samples) w r allowed =
    refines-collecting op path frequency samples w r.0 r.1 r.2 allowed
