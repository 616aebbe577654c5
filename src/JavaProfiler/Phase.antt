-- ===== src/JavaProfiler/Phase.antt =====
-- The two phases of the profiler of java_profiler.cc, and how its operations move between them.
use javaprofiler.Base.{
  ℕ, ◌+◌, ◌<◌, ◌≡◌, refl, ◌⊎◌, inl, inr, pos, List, [], length, Option-cases, none, some, Bool,
  true, false,
}
use javaprofiler.Run.{ok, Returns}
use javaprofiler.Os.{print, not_enabled, open_answer}
use javaprofiler.Os.FdWrite.{IsReliable}
use javaprofiler.ProfileData.{World, enabled}
use javaprofiler.ProfileData.Stop.{stop, destroy}
use javaprofiler.ProfileData.Emit.{IsOpen-enabled}
use javaprofiler.ProfileData.Tracks.{Tracks}
use javaprofiler.ProfileData.Tracks.Control.{
  start-Tracks, refused, start-refused, Finished, stop-Finished,
}
use javaprofiler.ProfileData.Tracks.Flush.{Flushed, flush_table-Flushed}
use javaprofiler.JavaProfiler.{
  Process, frequency, path_size, say, enabling, enable_handler, disable_handler, start_profiler,
  stop_profiler, flush_profiler, destroy_profiler,
}

-- Not profiling: the collector is disabled and the timer disarmed. No write to come fails.
pub record IsIdle (p : Process) : Type 0 where
  pub off : enabled p.world ≡ false
  pub timer : p.timer ≡ 0
  pub reliable : IsReliable p.world.os.writes
  pub path_fits : 1 + length p.profile_path < path_size

-- Profiling into `path`, with the samples `stacks` so far: the handler is installed, and the timer
-- runs at 50 Hz. No write to come fails, as `Tracks` says.
pub record IsActive (path : List ℕ) (stacks : List (List ℕ)) (p : Process) : Type 0 where
  pub tracks : Tracks path (pos frequency) stacks p.world
  pub sigprof : p.sigprof ≡ enabling
  pub timer : p.timer ≡ 20000
  pub path_fits : 1 + length p.profile_path < path_size

pub IsActive-enabled :
    (path : List ℕ) (stacks : List (List ℕ)) (p : Process)
    → IsActive path stacks p
    → enabled p.world ≡ true
IsActive-enabled path stacks p a = IsOpen-enabled path p.world a.tracks.opened

-- `Start` of an idle profiler returns true and begins an empty profile, if the file opens.
pub start_profiler-IsActive :
    (path : List ℕ) (p : Process) (fd : ℕ)
    → IsIdle p
    → open_answer p.world.os.opens ≡ some fd
    → Returns
        (start_profiler path p)
        λ r. (r.0 ≡ true) × IsActive path [] r.1 × (r.1.profile_path ≡ p.profile_path)
unfolding start_profiler enable_handler
start_profiler-IsActive path p fd i opens =
    let (r, run, (yes', t)) =
      start-Tracks path (pos frequency) p.world fd i.off opens (λ e. cc) i.reliable in
    (
      (true, enable_handler (record p { world = r.1 })),
      rw (i.off, run, yes'),
      (refl, record { tracks = t; sigprof = refl; timer = refl; path_fits = i.path_fits }, refl),
    )

-- It returns false and stays idle, if the file cannot be opened.
pub start_profiler-IsIdle :
    (path : List ℕ) (p : Process)
    → IsIdle p
    → open_answer p.world.os.opens ≡ none
    → Returns (start_profiler path p) λ r. (r.0 ≡ false) × IsIdle r.1
unfolding start_profiler enabled
start_profiler-IsIdle path p i failed = (
  (false, record p { world = refused p.world }),
  rw (i.off, start-refused path (pos frequency) p.world i.off failed),
  (refl, record { off = i.off; timer = i.timer; reliable = i.reliable; path_fits = i.path_fits }),
)

-- What `Start` reports is what it did.
abbrev pub Started : List ℕ → Bool × Process → Type 0
Started path r = ((r.0 ≡ true) × IsActive path [] r.1) ⊎ ((r.0 ≡ false) × IsIdle r.1)

-- Start of an idle profiler returns, and what it reports is what it did: true with an empty profile
-- running at 50 Hz, or false with the profiler still idle.
pub start_profiler-Started :
    (path : List ℕ) (p : Process) → IsIdle p → Returns (start_profiler path p) (Started path)
start_profiler-Started path p i = elim (Option-cases (open_answer p.world.os.opens)) [
  | inl failed ↦ let (r, run, h) = start_profiler-IsIdle path p i failed in (r, run, inr h)
  | inr (fd, opens) ↦
      let (r, run, h) = start_profiler-IsActive path p fd i opens in (r, run, inl (h.0, h.1))
]

-- Stop of a running profiler returns, finishes the file and leaves the profiler idle with the timer
-- disarmed.
pub stop_profiler-Finished :
    (path : List ℕ) (stacks : List (List ℕ)) (p : Process)
    → IsActive path stacks p
    → Returns (stop_profiler p) λ p'. IsIdle p' × Finished path (pos frequency) stacks p'.world
unfolding stop_profiler disable_handler
stop_profiler-Finished path stacks p a =
    let (w, run, (f, _)) = stop-Finished path (pos frequency) stacks p.world a.tracks in
    (
      record (disable_handler p) { world = w },
      rw (IsActive-enabled path stacks p a, run),
      (record { off = f.off; timer = refl; reliable = f.reliable; path_fits = a.path_fits }, f),
    )

-- `Stop` of an idle profiler only says so.
pub stop_profiler-IsIdle : (p : Process) → IsIdle p → Returns (stop_profiler p) IsIdle
unfolding stop_profiler print enabled
stop_profiler-IsIdle p i = (
  say not_enabled p,
  rw i.off,
  record { off = i.off; timer = i.timer; reliable = i.reliable; path_fits = i.path_fits },
)

-- The destructor stops a running profile once: its collector is then disabled.
destroy-disabled : (w : World) → enabled w ≡ false → destroy w ≡ ok w
unfolding destroy stop
destroy-disabled w off = rw off

pub destroy_profiler-idle :
    (p p' : Process) → stop_profiler p ≡ ok p' → IsIdle p' → destroy_profiler p ≡ ok p'
unfolding destroy_profiler
destroy_profiler-idle p p' run i = rw (run, destroy-disabled p'.world i.off)

-- FlushTable of a running profiler returns and keeps it running with the handler, the timer and the
-- samples as before, and all samples in the file.
pub flush_profiler-Flushed :
    (path : List ℕ) (stacks : List (List ℕ)) (p : Process)
    → IsActive path stacks p
    → Returns
        (flush_profiler p)
        λ p'. IsActive path stacks p' × Flushed path (pos frequency) stacks p'.world
unfolding flush_profiler disable_handler enable_handler
flush_profiler-Flushed path stacks p a =
    let (w, run, f) = flush_table-Flushed path (pos frequency) stacks p.world a.tracks in
    (
      enable_handler (record (disable_handler p) { world = w }),
      rw (IsActive-enabled path stacks p a, run),
      (record { tracks = f.tracks; sigprof = refl; timer = refl; path_fits = a.path_fits }, f),
    )
