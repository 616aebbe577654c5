-- ===== src/JavaProfiler/Events/Settings.antt =====
-- The globals of java_profiler.cc that `startProfiling`, `onJvmStart` and `onJvmStop` share, and the
-- operations that leave them alone, if they return.
use javaprofiler.Base.{
  ℕ, zero, suc, ◌≡◌, ℤ, pos, negsuc, Bool, true, false, List, [], length, if◌then◌else◌, ◌==◌,
}
use javaprofiler.Run.{Run, ok, ◌>>=◌}
use javaprofiler.ProfileData.{World, enabled, start}
use javaprofiler.ProfileData.Stop.{stop, destroy}
use javaprofiler.ProfileData.FlushTable.{flush_table}
use javaprofiler.ProfileData.Add.{add}
use javaprofiler.ProfileData.Isolation.{Ensures, Ensures-bind, Ensures-if, anything}
use javaprofiler.JavaProfiler.{
  Process, Frame, Signal, Action, sig_dfl, sig_ign, prof_handler_action, frequency, collect,
  record_trace, attach, prof_handler, deliver_to, start_profiler, stop_profiler, destroy_profiler,
  flush_profiler, enable_handler, disable_handler, say,
}
use javaprofiler.JavaProfiler.Events.{expire}

pub record Setting : Type 0 where
  pub stored : List ℕ
  pub jvm : Bool
  pub auto : Bool

abbrev pub setting_of : Process → Setting
setting_of p = record { stored = p.profile_path; jvm = p.jvm_started; auto = p.auto_started }

module _ (g : Setting) where
  abbrev pub HasSetting : Process → Type 0
  HasSetting p = setting_of p ≡ g

  collector-HasSetting :
      (p : Process) (m : Run World)
      → HasSetting p
      → Ensures HasSetting (m >>= λ w. ok (record p { world = w }))
  collector-HasSetting p m h = Ensures-bind (λ w. Unit {0}) HasSetting m _ (anything m) λ w _. h

  attach-HasSetting : (ret : ℤ) (p : Process) → HasSetting p → HasSetting (attach ret p)
  attach-HasSetting (pos zero) p h = h
  attach-HasSetting (pos (suc n)) p h = h
  attach-HasSetting (negsuc n) p h = h

  record_trace-HasSetting :
      (n : ℤ) (storage : List Frame) (p : Process)
      → HasSetting p
      → Ensures HasSetting (record_trace n storage p)
  unfolding record_trace
  record_trace-HasSetting (negsuc n) storage p h = h
  record_trace-HasSetting (pos n) storage p h =
      Ensures-bind (λ s. Unit {0}) HasSetting (collect n storage []) _ (anything _)
        λ stack _. collector-HasSetting p (add (pos (length stack)) stack p.world) h

  prof_handler-HasSetting :
      (sig : Signal) (p : Process) → HasSetting p → Ensures HasSetting (prof_handler sig p)
  unfolding prof_handler
  prof_handler-HasSetting sig p h =
      Ensures-if HasSetting sig.context _ _
        (record_trace-HasSetting sig.num_frames sig.storage (attach sig.attach_result p)
          (attach-HasSetting sig.attach_result p h))
        (attach-HasSetting sig.attach_result p h)

  deliver_to-HasSetting :
      (a : Action) (sig : Signal) (p : Process)
      → HasSetting p
      → Ensures HasSetting (deliver_to a sig p)
  unfolding deliver_to
  deliver_to-HasSetting sig_dfl sig p h = tt
  deliver_to-HasSetting sig_ign sig p h = h
  deliver_to-HasSetting prof_handler_action sig p h = prof_handler-HasSetting sig p h

  pub expire-HasSetting :
      (sig : Signal) (p : Process) → HasSetting p → Ensures HasSetting (expire sig p)
  unfolding expire
  expire-HasSetting sig p h =
      Ensures-if HasSetting (p.timer == 0) (ok p) _ h
        (deliver_to-HasSetting p.sigprof.action sig p h)

  pub start_profiler-HasSetting :
      (path : List ℕ) (p : Process)
      → HasSetting p
      → Ensures (λ r. HasSetting r.1) (start_profiler path p)
  unfolding start_profiler enable_handler
  start_profiler-HasSetting path p h =
      Ensures-if (λ (r : Bool × Process). HasSetting r.1) (enabled p.world) (ok (false, p)) _ h
        (Ensures-bind (λ r. Unit {0}) (λ (r : Bool × Process). HasSetting r.1)
          (start path (pos frequency) p.world) _ (anything _)
          λ r _. by_result r.0 (record p { world = r.1 }) h)
    where
      by_result :
          (b : Bool) (p' : Process)
          → HasSetting p'
          → HasSetting
              (if◌then◌else◌ {A = Bool × Process} b (true, enable_handler p') (false, p')).1
      by_result true p' k = k
      by_result false p' k = k

  pub stop_profiler-HasSetting : (p : Process) → HasSetting p → Ensures HasSetting (stop_profiler p)
  unfolding stop_profiler disable_handler
  stop_profiler-HasSetting p h =
      Ensures-if HasSetting (enabled p.world) _ (ok (say _ p))
        (collector-HasSetting (disable_handler p) (stop p.world) h) h

  pub destroy_profiler-HasSetting :
      (p : Process) → HasSetting p → Ensures HasSetting (destroy_profiler p)
  unfolding destroy_profiler
  destroy_profiler-HasSetting p h =
      Ensures-bind HasSetting HasSetting (stop_profiler p) _ (stop_profiler-HasSetting p h)
        λ p' h'. collector-HasSetting p' (destroy p'.world) h'

  pub flush_profiler-HasSetting :
      (p : Process) → HasSetting p → Ensures HasSetting (flush_profiler p)
  unfolding flush_profiler disable_handler enable_handler
  flush_profiler-HasSetting p h =
      Ensures-if HasSetting (enabled p.world) _ (ok p)
        (Ensures-bind (λ w. Unit {0}) HasSetting (flush_table p.world) _ (anything _) λ w _. h) h

-- A call that returns has what it ensures.
pub returned {ℓ} : {A : Type ℓ} (P : A → Type 0) (m : Run A) (a : A) → m ≡ ok a → Ensures P m → P a
returned P m a run h = rw run at h
