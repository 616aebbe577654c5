-- ===== src/JavaProfiler/Events/Phases.antt =====
-- What the profiler of java_profiler.cc is doing, and the phases of its process.
use javaprofiler.Base.{ℕ, suc, ◌+◌, ◌≤◌, ◌<◌, pos, List, length, Bool, arith}
use javaprofiler.Os.{Message, print}
use javaprofiler.ProfileData.{enabled}
use javaprofiler.JavaProfiler.{Process, frequency, path_size, say}
use javaprofiler.JavaProfiler.Signals.{say-Tracks}
use javaprofiler.JavaProfiler.Phase.{IsIdle, IsActive}

-- What the profiler does: nothing, or profiling into `path` with the samples `stacks` so far.
pub data Status : Type 0 where
  waiting : Status
  running : (path : List ℕ) (stacks : List (List ℕ)) → Status

abbrev pub Matches : Status → Process → Type 0
Matches waiting p = IsIdle p
Matches (running path stacks) p = IsActive path stacks p

-- The number of samples.
abbrev pub samples_of : Status → ℕ
samples_of waiting = 0
samples_of (running path stacks) = length stacks

-- The profiler is idle, or active with at most `n` samples; in either case no write to come fails.
pub data Phase (n : ℕ) (p : Process) : Type 0 where
  idle : IsIdle p → Phase n p
  active :
      (path : List ℕ) (stacks : List (List ℕ))
      → length stacks ≤ n
      → IsActive path stacks p
      → Phase n p

pub Phase-Matches :
    (n : ℕ) (p : Process) → Phase n p → (s : Status) × (samples_of s ≤ n) × Matches s p
Phase-Matches n p (idle i) = (waiting, omega arith, i)
Phase-Matches n p (active path stacks h a) = (running path stacks, h, a)

pub Matches-Phase : (n : ℕ) (s : Status) (p : Process) → samples_of s ≤ n → Matches s p → Phase n p
Matches-Phase n waiting p h i = idle i
Matches-Phase n (running path stacks) p h a = active path stacks h a

pub Phase-mono : (n : ℕ) (p : Process) → Phase n p → Phase (suc n) p
Phase-mono n p (idle i) = idle i
Phase-mono n p (active path stacks h a) = active path stacks (omega arith) a

pub say-Matches : (s : Status) (m : Message) (p : Process) → Matches s p → Matches s (say m p)
unfolding enabled print
say-Matches waiting m p i = record {
  off = i.off;
  timer = i.timer;
  reliable = i.reliable;
  path_fits = i.path_fits;
}
say-Matches (running path stacks) m p a = record {
  tracks = say-Tracks path (pos frequency) stacks m p a.tracks;
  sigprof = a.sigprof;
  timer = a.timer;
  path_fits = a.path_fits;
}

pub say-Phase : (n : ℕ) (m : Message) (p : Process) → Phase n p → Phase n (say m p)
say-Phase n m p h =
    let (s, few, k) = Phase-Matches n p h in Matches-Phase n s (say m p) few (say-Matches s m p k)

-- Setting the globals, with a path that fits, changes no status.
pub with_globals-Matches :
    (s : Status) (b c : Bool) (path : List ℕ) (p : Process)
    → 1 + length path < path_size
    → Matches s p
    → Matches s (record p { auto_started = b; jvm_started = c; profile_path = path })
with_globals-Matches waiting b c path p h i = record {
  off = i.off;
  timer = i.timer;
  reliable = i.reliable;
  path_fits = h;
}
with_globals-Matches (running f stacks) b c path p h a = record {
  tracks = a.tracks;
  sigprof = a.sigprof;
  timer = a.timer;
  path_fits = h;
}

pub Matches-path_fits :
    (s : Status) (p : Process) → Matches s p → 1 + length p.profile_path < path_size
Matches-path_fits waiting p i = i.path_fits
Matches-path_fits (running path stacks) p a = a.path_fits
