-- ===== src/Tests/Machine.antt =====
-- The theorems about the life, the single steps and the files of java_profiler.cc, and about what
-- profiledata.h promises, at concrete inputs.
use javaprofiler.Base.{
  ℕ, ◌+◌, ◌≡◌, refl, ◌⊎◌, pos, List, [], ◌∷◌, ◌++◌, length, list_eq, All, arith,
}
use javaprofiler.Run.{Returns, ok, ◌>>=◌}
use javaprofiler.ProfileData.Bag.{bag_of}
use javaprofiler.ProfileData.Isolation.{Ensures}
use javaprofiler.ProfileData.Abstract.{stops, collecting}
use javaprofiler.ProfileData.Abstract.Refines.{Refined, perform-Promises}
use javaprofiler.JavaProfiler.{loaded}
use javaprofiler.JavaProfiler.Signals.{sampled}
use javaprofiler.JavaProfiler.Events.{Event, flush, exits, run}
use javaprofiler.JavaProfiler.Events
use javaprofiler.JavaProfiler.Events.Phases.{idle}
use javaprofiler.JavaProfiler.Events.Safety.{IsGood}
use javaprofiler.JavaProfiler.Events.Lifetime.{Lives, run-Ends}
use javaprofiler.JavaProfiler.Events.Isolation.{LeavesAlone, run-LeavesAlone}
use javaprofiler.JavaProfiler.Machine.{
  outside, Move, calls_start, calls_stop, advances, ticks, moves,
}
use javaprofiler.JavaProfiler.Machine.Points.{At}
use javaprofiler.JavaProfiler.Machine.Windows.{Killed, moves-At}
use javaprofiler.JavaProfiler.Machine.Linear.{signals, flush_schedule, stop_schedule, schedules-eq}
use javaprofiler.Tests.{
  path, system, idle_process, idle_process-IsIdle, signal, running_world, running_world-Tracks,
}
use javaprofiler.Tests.Profiler.{events, signal-words, sampled_process, sampled_process-IsActive}

events-IsGood : All IsGood events
events-IsGood = (tt, (tt, (signal-words, (tt, (tt, (tt, (tt, (signal-words, (tt, (tt, tt))))))))))

run-Ends_example : Returns (run events (loaded system)) (Lives events system)
run-Ends_example = run-Ends events system tt events-IsGood (omega arith)

-- A file that no event names.
abbrev other_path : List ℕ
other_path = 120 ∷ []

idle_process-LeavesAlone : LeavesAlone other_path [] idle_process
unfolding list_eq
idle_process-LeavesAlone = record {
  apart = record { held = refl; unreferred = λ fd p h. cc };
  path = refl;
}

run-LeavesAlone_example : Ensures (LeavesAlone other_path []) (run events idle_process)
unfolding list_eq
run-LeavesAlone_example =
    run-LeavesAlone other_path [] events idle_process idle_process-LeavesAlone
      (tt, (refl, (tt, (tt, (refl, (tt, (tt, (tt, (tt, (tt, tt))))))))))

-- A signal arrives within a stop.
abbrev schedule : List Move
schedule =
    calls_start path
    ∷ advances
    ∷ advances
    ∷ ticks signal
    ∷ calls_stop
    ∷ advances
    ∷ ticks signal
    ∷ advances
    ∷ []

moves-At_example :
    Returns (moves schedule outside idle_process) (λ s. At (0 + length schedule) s.0 s.1)
    ⊎ Killed schedule outside idle_process
moves-At_example =
    moves-At 0 schedule outside idle_process (idle idle_process-IsIdle)
      (tt, (tt, (tt, (signal-words, (tt, (tt, (signal-words, (tt, tt)))))))) (omega arith)

schedules-eq_example :
    (moves
        (flush_schedule (signal ∷ []) (signal ∷ []) [] (signal ∷ []) (signal ∷ []))
        outside
        sampled_process.0
      ≡ (run (signals (signal ∷ []) ++ (flush ∷ signals (signal ∷ []))) sampled_process.0 >>= λ p'.
          ok (outside, p')))
    × (moves (stop_schedule (signal ∷ []) (signal ∷ []) (signal ∷ [])) outside sampled_process.0 ≡ (
        run (signals (signal ∷ []) ++ (Events.stops ∷ signals (signal ∷ []))) sampled_process.0
        >>= λ p'. ok (outside, p')))
schedules-eq_example =
    schedules-eq path (sampled signal []) sampled_process.0 (signal ∷ []) (signal ∷ []) []
      (signal ∷ []) (signal ∷ []) sampled_process-IsActive (signal-words, tt) (omega arith)

perform-Promises_example : Refined stops (collecting path (pos 50) (bag_of [])) running_world
perform-Promises_example =
    perform-Promises stops (collecting path (pos 50) (bag_of [])) running_world
      ([], refl, running_world-Tracks) tt
