-- ===== src/JavaProfiler/Events/Profile.antt =====
-- A whole profile, from `start0` of java_profiler.cc to the reader of its file in ProfileData.java.
use javaprofiler.Base.{
  ℕ, ◌+◌, ◌≤◌, ◌<◌, ◌≡◌, ap, ◌∙◌, ℤ, pos, negsuc, to_word, to_int-to_word, IsInt, take, All-take,
  List, [], ◌∷◌, length, some, Bool, true, false, if◌then◌else◌, arith, All, leb, ◌^◌,
}
use javaprofiler.Run.{ok, Returns}
use javaprofiler.Os.{open_answer}
use javaprofiler.JavaProfiler.{
  Process, Frame, Signal, frequency, path_size, start_profiler, start_profiling, start0, stop0,
}
use javaprofiler.JavaProfiler.Signals.{IsTrace, frame_slots, trace_stacks, sampled}
use javaprofiler.JavaProfiler.Phase.{
  IsIdle, IsActive, start_profiler-IsActive, stop_profiler-Finished,
}
use javaprofiler.JavaProfiler.Events.{Event, starts, stops, expires, step, run}
use javaprofiler.JavaProfiler.Events.Safety.{expire-Active, length-sampled}
use javaprofiler.ProfileData.Tracks.Control.{Finished}
use javaprofiler.JavaProfileData.Resolve.{IsFrames}
use javaprofiler.JavaProfileData.Frames.{ReadsFrames, Finished-ReadsFrames}
use javaprofiler.Reader.RoundTrip.{ReadsBack, Finished-ReadsBack}

-- The events of one profile: the start, an expiration of the timer for each signal, and the stop.
unfoldable pub ticks : List Signal → List Event
ticks [] = stops ∷ []
ticks (sig ∷ sigs) = expires sig ∷ ticks sigs

abbrev pub profile : List ℕ → List Signal → List Event
profile path sigs = starts (some path) ∷ ticks sigs

-- The stacks that the JVM gave, latest first.
unfoldable pub traced : List Signal → List (List ℕ) → List (List ℕ)
traced [] stacks = stacks
traced (sig ∷ sigs) stacks = traced sigs (sampled sig stacks)

abbrev pub IsTraced : Signal → Type 0
IsTraced sig = IsTrace sig.num_frames sig.storage

pub length-traced :
    (sigs : List Signal) (stacks : List (List ℕ))
    → length (traced sigs stacks) ≤ length sigs + length stacks
unfolding traced
length-traced [] stacks = omega arith
length-traced (sig ∷ sigs) stacks =
    omega (arith, length-traced sigs (sampled sig stacks), length-sampled sig stacks)

-- The line of a frame is a `jint`.
abbrev pub HasLines : Signal → Type 0
HasLines sig = All (λ (f : Frame). IsInt f.lineno) sig.storage

frame_slots-IsFrames :
    (fs : List Frame) → All (λ (f : Frame). IsInt f.lineno) fs → IsFrames (frame_slots fs)
unfolding frame_slots
frame_slots-IsFrames [] h = tt
frame_slots-IsFrames (f ∷ fs) h =
    (ap to_word (to_int-to_word f.lineno h.0), frame_slots-IsFrames fs h.1)

sampled-IsFrames :
    (sig : Signal) (stacks : List (List ℕ))
    → HasLines sig
    → All IsFrames stacks
    → All IsFrames (sampled sig stacks)
sampled-IsFrames sig stacks h v = by_trace sig.context sig.num_frames
  where
    by_trace :
        (b : Bool) (n : ℤ) → All IsFrames (if b then trace_stacks n sig.storage stacks else stacks)
    by_trace false n = v
    by_trace true (negsuc n) = v
    by_trace true (pos n) =
        (frame_slots-IsFrames (take n sig.storage) (All-take _ n sig.storage h), v)

pub traced-IsFrames :
    (sigs : List Signal) (stacks : List (List ℕ))
    → All HasLines sigs
    → All IsFrames stacks
    → All IsFrames (traced sigs stacks)
unfolding traced
traced-IsFrames [] stacks h v = v
traced-IsFrames (sig ∷ sigs) stacks h v =
    traced-IsFrames sigs (sampled sig stacks) h.1 (sampled-IsFrames sig stacks h.0 v)

ticks-Finished :
    (path : List ℕ) (sigs : List Signal) (stacks : List (List ℕ)) (p : Process)
    → IsActive path stacks p
    → All IsTraced sigs
    → length sigs + length stacks < 2 ^ 31
    → Returns
        (run (ticks sigs) p)
        λ p'. IsIdle p' × Finished path (pos frequency) (traced sigs stacks) p'.world
unfolding run ticks traced step stop0
ticks-Finished path [] stacks p a v few =
    let (p', run, done') = stop_profiler-Finished path stacks p a in (p', rw run, done')
ticks-Finished path (sig ∷ sigs) stacks p a v few =
    let (p', run, b) = expire-Active sig path stacks p a v.0 (omega arith) in
    rw run (
      ticks-Finished path sigs (sampled sig stacks) p' b v.1
        (omega (arith, length-sampled sig stacks)))

start_profiling-IsActive :
    (path : List ℕ) (p : Process) (fd : ℕ)
    → IsIdle p
    → p.jvm_started ≡ true
    → 1 + length path < path_size
    → open_answer p.world.os.opens ≡ some fd
    → Returns (start_profiling path p) λ r. (r.0 ≡ true) × IsActive path [] r.1
unfolding start_profiling
start_profiling-IsActive path p fd i up fits opens =
    let p' = record p { profile_path = path } in
    let j : IsIdle p' = record {
      off = i.off;
      timer = i.timer;
      reliable = i.reliable;
      path_fits = fits;
    } in
    let (r, run, h) = start_profiler-IsActive path p' fd j opens in
    let short : leb path_size (1 + length path) ≡ false = ground arith in
    (
      r,
      rw short (ap (λ (b : Bool). if b then start_profiler path p' else ok (true, p')) up ∙ run),
      (h.0, h.1),
    )

pub profile-Finished :
    (path : List ℕ) (sigs : List Signal) (p : Process) (fd : ℕ)
    → IsIdle p
    → p.jvm_started ≡ true
    → 1 + length path < path_size
    → open_answer p.world.os.opens ≡ some fd
    → All IsTraced sigs
    → length sigs < 2 ^ 31
    → Returns
        (run (profile path sigs) p)
        λ p'. IsIdle p' × Finished path (pos frequency) (traced sigs []) p'.world
unfolding run step start0
profile-Finished path sigs p fd i up fits opens v few =
    let (r, run, (_, a)) = start_profiling-IsActive path p fd i up fits opens in
    rw run (ticks-Finished path sigs [] r.1 a v (omega arith))

-- A profile of an idle profiler in a running JVM (a path that fits, a file that opens, fewer than 2
-- ^ 31 signals that each bring an error code or 1 to 32 frames, no failing write) returns from
-- every event and is idle again, and the Java reader finds in the file for every stack exactly how
-- often the JVM gave it.
pub profile-ReadsBack :
    (path : List ℕ) (sigs : List Signal) (p : Process) (fd : ℕ)
    → IsIdle p
    → p.jvm_started ≡ true
    → 1 + length path < path_size
    → open_answer p.world.os.opens ≡ some fd
    → All IsTraced sigs
    → length sigs < 2 ^ 31
    → Returns
        (run (profile path sigs) p)
        λ p'. IsIdle p' × ReadsBack (traced sigs []) (p'.world.os.files path)
profile-ReadsBack path sigs p fd i up fits opens v few =
    let (p', run, (idle, f)) = profile-Finished path sigs p fd i up fits opens v few in
    let few' : length (traced sigs []) < 2 ^ 31 = omega (arith, length-traced sigs []) in
    (p', run, (idle, Finished-ReadsBack path (pos frequency) (traced sigs []) p'.world f few'))

-- A profile of an idle profiler in a running JVM (a path that fits, a file that opens, fewer than 2
-- ^ 31 signals that each bring an error code or 1 to 32 frames whose lines are 32-bit integers, no
-- failing write) returns from every event and is idle again, and JavaProfileData reads the file:
-- its numbers and its locations are inverse to one another, every number in an observation has a
-- location, and for every stack of methods and lines the observations that stand for it count
-- exactly how often the JVM gave it.
pub profile-ReadsFrames :
    (path : List ℕ) (sigs : List Signal) (p : Process) (fd : ℕ)
    → IsIdle p
    → p.jvm_started ≡ true
    → 1 + length path < path_size
    → open_answer p.world.os.opens ≡ some fd
    → All IsTraced sigs
    → length sigs < 2 ^ 31
    → All HasLines sigs
    → Returns
        (run (profile path sigs) p)
        λ p'. IsIdle p' × ReadsFrames (traced sigs []) (p'.world.os.files path)
profile-ReadsFrames path sigs p fd i up fits opens v few lines =
    let (p', run, (idle, f)) = profile-Finished path sigs p fd i up fits opens v few in
    let few' : length (traced sigs []) < 2 ^ 31 = omega (arith, length-traced sigs []) in
    let framed = traced-IsFrames sigs [] lines tt in
    (
      p',
      run,
      (idle, Finished-ReadsFrames path (pos frequency) (traced sigs []) p'.world f few' framed),
    )
