-- ===== src/JavaProfiler/Deferred.antt =====
-- `startProfiling` and `onJvmStart` of java_profiler.cc: a start before the JVM has started, a second
-- start, and a long path.
use javaprofiler.Base.{
  ℕ, pos, ◌+◌, ◌≤◌, ◌<◌, ◌≡◌, refl, ap, ◌∙◌, List, [], ◌∷◌, length, some, Bool, true, false,
  if◌then◌else◌, arith, leb,
}
use javaprofiler.Run.{ok, ◌>>=◌, Returns}
use javaprofiler.Os.{open_answer, path_too_long, sending_to}
use javaprofiler.ProfileData.{enabled}
use javaprofiler.JavaProfiler.{
  Process, path_size, say, start_profiler, start_profiling, on_jvm_start, report_start, is_set,
  frequency,
}
use javaprofiler.JavaProfiler.Signals.{say-Tracks}
use javaprofiler.JavaProfiler.Phase.{IsIdle, IsActive, IsActive-enabled, start_profiler-IsActive}

short_path : (path : List ℕ) → 1 + length path < path_size → leb path_size (1 + length path) ≡ false
short_path path h = ground arith

started_path :
    (path : List ℕ) (r : Process)
    → IsActive path [] r
    → IsActive path [] (report_start (true, r)) × ((report_start (true, r)).auto_started ≡ true)
unfolding report_start
started_path path r a = (
  record {
    tracks = say-Tracks path (pos frequency) [] (sending_to r.profile_path) r a.tracks;
    sigprof = a.sigprof;
    timer = a.timer;
    path_fits = a.path_fits;
  },
  refl,
)

-- Before the JVM has started, only the path is stored.
start_profiling-down :
    (path : List ℕ) (p : Process)
    → p.jvm_started ≡ false
    → 1 + length path < path_size
    → start_profiling path p ≡ ok (true, record p { profile_path = path })
unfolding start_profiling
start_profiling-down path p down fits =
    let p' = record p { profile_path = path } in
    rw (short_path path fits)
      (ap (λ (b : Bool). if b then start_profiler path p' else ok (true, p')) down)

on_jvm_start-IsActive :
    (c : ℕ) (cs : List ℕ) (p : Process) (fd : ℕ)
    → IsIdle p
    → p.profile_path ≡ c ∷ cs
    → open_answer p.world.os.opens ≡ some fd
    → Returns (on_jvm_start p) λ q. IsActive (c ∷ cs) [] q × (q.auto_started ≡ true)
unfolding on_jvm_start
on_jvm_start-IsActive c cs p fd i path opens =
    let p' = record p { jvm_started = true } in
    let j : IsIdle p' = record {
      off = i.off;
      timer = i.timer;
      reliable = i.reliable;
      path_fits = i.path_fits;
    } in
    let (r, run, (begun, a, _)) = start_profiler-IsActive (c ∷ cs) p' fd j opens in
    (
      report_start (true, r.1),
      ap
            (λ (s : List ℕ).
              if is_set s then (start_profiler s p' >>= λ r. ok (report_start r)) else ok p')
            path
          ∙ rw run (ap (λ (b : Bool). ok (report_start (b, r.1))) begun),
      started_path (c ∷ cs) r.1 a,
    )

-- A start before the JVM runs, with a path that is not empty and fits, followed by the JVM's start,
-- returns with a profile running at that path, if the file opens, and marked to be stopped at the
-- JVM's end.
pub deferred_start :
    (c : ℕ) (cs : List ℕ) (p : Process) (fd : ℕ)
    → IsIdle p
    → p.jvm_started ≡ false
    → 1 + length (c ∷ cs) < path_size
    → open_answer p.world.os.opens ≡ some fd
    → Returns
        (start_profiling (c ∷ cs) p >>= λ r. on_jvm_start r.1)
        λ q. IsActive (c ∷ cs) [] q × (q.auto_started ≡ true)
deferred_start c cs p fd i down fits opens =
    let p' = record p { profile_path = c ∷ cs } in
    let j : IsIdle p' = record {
      off = i.off;
      timer = i.timer;
      reliable = i.reliable;
      path_fits = fits;
    } in
    rw (start_profiling-down (c ∷ cs) p down fits) (on_jvm_start-IsActive c cs p' fd j refl opens)

-- A start while a profile runs in a running JVM, with a path that fits, returns false and the
-- profile goes on.
pub second_start_refused :
    (path other : List ℕ) (stacks : List (List ℕ)) (p : Process)
    → IsActive path stacks p
    → p.jvm_started ≡ true
    → 1 + length other < path_size
    → Returns (start_profiling other p) λ r. (r.0 ≡ false) × IsActive path stacks r.1
unfolding start_profiling start_profiler enabled
second_start_refused path other stacks p a up fits =
    let p' = record p { profile_path = other } in
    (
      (false, p'),
      rw (short_path other fits) (
          ap (λ (b : Bool). if b then start_profiler other p' else ok (true, p')) up
          ∙ rw (IsActive-enabled path stacks p a) refl),
      (refl, record { tracks = a.tracks; sigprof = a.sigprof; timer = a.timer; path_fits = fits }),
    )

-- A path that does not fit profilePath with its terminator is refused; the stored path and whether
-- a profile runs stay the same.
pub long_path_refused :
    (path : List ℕ) (p : Process)
    → path_size ≤ 1 + length path
    → Returns (start_profiling path p) λ r.
      (r.0 ≡ false) × (r.1.profile_path ≡ p.profile_path) × (enabled r.1.world ≡ enabled p.world)
unfolding start_profiling enabled
long_path_refused path p h =
    let long : leb path_size (1 + length path) ≡ true = ground arith in
    ((false, say path_too_long p), rw long refl, (refl, refl, refl))
