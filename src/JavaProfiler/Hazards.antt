-- ===== src/JavaProfiler/Hazards.antt =====
-- java_profiler.cc where the handler finds no frame, and where a signal arrives after `DisableHandler`
-- changed the disposition of SIGPROF.
use javaprofiler.Base.{zero, suc, ◌≡◌, refl, ◌∙◌, ℤ, pos, negsuc, List, true}
use javaprofiler.Run.{fault, check_failed, killed_by_signal}
use javaprofiler.ProfileData.{enabled}
use javaprofiler.ProfileData.Add.{add}
use javaprofiler.JavaProfiler.{
  Process, Frame, Signal, collect, record_trace, prof_handler, attach, deliver, deliver_to, install,
  disabling, disable_handler,
}

attach-enabled : (ret : ℤ) (p : Process) → enabled (attach ret p).world ≡ enabled p.world
unfolding enabled
attach-enabled (pos zero) p = refl
attach-enabled (pos (suc n)) p = refl
attach-enabled (negsuc n) p = refl

no_frames :
    (storage : List Frame) (p : Process)
    → enabled p.world ≡ true
    → record_trace (pos 0) storage p ≡ fault check_failed
unfolding record_trace collect add
no_frames storage p on = rw on

-- When a signal has a context and its trace has 0 frames, the handler of an enabled collector fails
-- the check of Add.
pub zero_frames_abort :
    (sig : Signal) (p : Process)
    → sig.context ≡ true
    → sig.num_frames ≡ pos 0
    → enabled p.world ≡ true
    → prof_handler sig p ≡ fault check_failed
unfolding prof_handler
zero_frames_abort sig p present none_found on =
    rw (present, none_found) (no_frames sig.storage _ (attach-enabled sig.attach_result p ∙ on))

-- Both between the two system calls of DisableHandler and after them, a delivery of SIGPROF kills
-- the process.
pub disabled_handler_kills :
    (sig : Signal) (p : Process)
    → (deliver sig (install disabling p) ≡ fault killed_by_signal)
      × (deliver sig (disable_handler p) ≡ fault killed_by_signal)
unfolding disable_handler deliver_to
disabled_handler_kills sig p = (refl, refl)
