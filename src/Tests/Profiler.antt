-- ===== src/Tests/Profiler.antt =====
-- The theorems about java_profiler.cc at concrete inputs.
use javaprofiler.Base.{
  ℕ, ◌+◌, ◌^◌, ◌<◌, ◌≡◌, refl, pos, negsuc, List, [], ◌∷◌, length, some, true, false, arith,
  replicate, ◌≤◌,
}
use javaprofiler.Run.{fault, check_failed, killed_by_signal, Returns, ◌>>=◌}
use javaprofiler.ProfileData.Tracks.{Tracks}
use javaprofiler.JavaProfiler.{
  Process, Signal, disabling, install, disable_handler, deliver, prof_handler, start_profiler,
  start_profiling, on_jvm_start,
}
use javaprofiler.JavaProfiler.Signals.{sampled, SameControl, prof_handler-Tracks}
use javaprofiler.JavaProfiler.Phase.{
  IsIdle, IsActive, Started, start_profiler-Started, IsActive-enabled,
}
use javaprofiler.JavaProfiler.Hazards.{zero_frames_abort, disabled_handler_kills}
use javaprofiler.JavaProfiler.Deferred.{deferred_start}
use javaprofiler.JavaProfiler.Events.{
  Event, starts, stops, vm_init, vm_death, flush, expires, exits, run,
}
use javaprofiler.JavaProfiler.Events.Phases.{Phase, idle}
use javaprofiler.JavaProfiler.Events.Safety.{run-Phase}
use javaprofiler.JavaProfiler.Events.Profile.{profile, traced, profile-ReadsBack}
use javaprofiler.Reader.RoundTrip.{ReadsBack}
use javaprofiler.Tests.{
  path, stack, idle_process, idle_process-IsIdle, running_process, running_process-IsActive, signal,
}

-- A signal whose trace is an error, and one without context.
abbrev trace_failed : Signal
trace_failed = record signal { num_frames = negsuc 1 }

abbrev no_context : Signal
no_context = record signal { context = false }

abbrev pub signals : List Signal
signals = signal ∷ trace_failed ∷ signal ∷ no_context ∷ []

pub signal-words : (0 < 1) × (1 ≤ 32) × (1 ≤ 1) × ((7 < 2 ^ 64) × Unit {0})
signal-words = (omega arith, omega arith, omega arith, (omega arith, tt))

profile-ReadsBack_example :
    Returns
      (run (profile path signals) idle_process)
      λ p'. IsIdle p' × ReadsBack (traced signals []) (p'.world.os.files path)
profile-ReadsBack_example =
    profile-ReadsBack path signals idle_process 5 idle_process-IsIdle refl (omega arith) refl
      (signal-words, (tt, (signal-words, (signal-words, tt)))) (omega arith)

abbrev pub events : List Event
events =
    vm_init
    ∷ starts (some path)
    ∷ expires signal
    ∷ flush
    ∷ starts (some stack)
    ∷ stops
    ∷ stops
    ∷ expires signal
    ∷ vm_death
    ∷ exits
    ∷ []

run-Phase_example : Returns (run events idle_process) (Phase (0 + length events))
run-Phase_example =
    run-Phase 0 events idle_process (idle idle_process-IsIdle)
      (tt, (tt, (signal-words, (tt, (tt, (tt, (tt, (signal-words, (tt, (tt, tt))))))))))
      (omega arith)

prof_handler-Tracks_example :
    Returns
      (prof_handler signal running_process)
      λ p'. Tracks path (pos 50) (sampled signal []) p'.world × SameControl running_process p'
prof_handler-Tracks_example =
    prof_handler-Tracks path (pos 50) [] signal running_process running_process-IsActive.tracks
      signal-words (omega arith)

start_profiler-Started_example : Returns (start_profiler path idle_process) (Started path)
start_profiler-Started_example = start_profiler-Started path idle_process idle_process-IsIdle

-- A running profiler with one sample.
pub sampled_process :
    Returns
      (prof_handler signal running_process)
      λ p'. Tracks path (pos 50) (sampled signal []) p'.world × SameControl running_process p'
sampled_process =
    prof_handler-Tracks path (pos 50) [] signal running_process running_process-IsActive.tracks
      signal-words (omega arith)

pub sampled_process-IsActive : IsActive path (sampled signal []) sampled_process.0
sampled_process-IsActive = record {
  tracks = sampled_process.2.0;
  sigprof = sampled_process.2.1.sigprof;
  timer = sampled_process.2.1.timer;
  path_fits = rw sampled_process.2.1.profile_path (omega arith);
}

-- The process before the JVM has started.
abbrev early_process : Process
early_process = record idle_process { jvm_started = false }

early_process-IsIdle : IsIdle early_process
early_process-IsIdle = record {
  off = idle_process-IsIdle.off;
  timer = refl;
  reliable = tt;
  path_fits = omega arith;
}

deferred_start_example :
    Returns
      (start_profiling path early_process >>= λ r. on_jvm_start r.1)
      λ q. IsActive path [] q × (q.auto_started ≡ true)
deferred_start_example =
    deferred_start 112 (114 ∷ 111 ∷ 102 ∷ []) early_process 5 early_process-IsIdle refl
      (omega arith) refl

-- The longest path that does not fit: with its terminator it has 4096 characters.
abbrev long_path : List ℕ
long_path = replicate 4095 97

-- A signal that finds no frame.
abbrev no_frames : Signal
no_frames = record signal { num_frames = pos 0; storage = [] }

zero_frames_abort_example : prof_handler no_frames running_process ≡ fault check_failed
zero_frames_abort_example =
    zero_frames_abort no_frames running_process refl refl
      (IsActive-enabled path [] running_process running_process-IsActive)

disabled_handler_kills_example :
    (deliver signal (install disabling running_process) ≡ fault killed_by_signal)
    × (deliver signal (disable_handler running_process) ≡ fault killed_by_signal)
disabled_handler_kills_example = disabled_handler_kills signal running_process
