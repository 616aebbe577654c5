-- ===== src/JavaProfiler/Events.antt =====
-- Everything that happens to the profiler of java_profiler.cc, as a sequence of events: calls from
-- Java, callbacks of the JVM, expirations of the profiling timer, and the destructor at exit.
pub mod Settings
pub mod Phases
pub mod Operations
pub mod Safety
pub mod Profile
pub mod Methods
pub mod Lifetime
pub mod Isolation
use javaprofiler.Base.{ℕ, Bool, Option, List, [], ◌∷◌, ◌==◌, if◌then◌else◌}
use javaprofiler.Run.{Run, ok, ◌>>=◌}
use javaprofiler.JavaProfiler.{
  Process, Signal, deliver, start0, stop0, on_jvm_start, on_jvm_stop, flush_profiler,
  destroy_profiler,
}

-- The argument of `starts` is what `GetStringUTFChars` returns.
pub data Event : Type 0 where
  starts : Option (List ℕ) → Event
  stops : Event
  vm_init : Event
  vm_death : Event
  flush : Event
  expires : Signal → Event
  exits : Event

-- A disarmed timer does not expire.
unfoldable pub expire : Signal → Process → Run Process
expire sig p = let signal = deliver sig p in if p.timer == 0 then ok p else signal

-- The results that the JNI entries return to Java are dropped, as Java drops them.
unfoldable pub step : Event → Process → Run Process
step (starts path) p = start0 path p >>= λ r. ok r.1
step stops p = stop0 p >>= λ r. ok r.1
step vm_init p = on_jvm_start p
step vm_death p = on_jvm_stop p
step flush p = flush_profiler p
step (expires sig) p = expire sig p
step exits p = destroy_profiler p

unfoldable pub run : List Event → Process → Run Process
run [] p = ok p
run (e ∷ es) p = step e p >>= run es
