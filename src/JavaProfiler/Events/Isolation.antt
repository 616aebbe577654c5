-- ===== src/JavaProfiler/Events/Isolation.antt =====
-- The files that java_profiler.cc leaves alone, whatever happens to it.
use javaprofiler.Base.{
  ℕ, zero, suc, ◌≡◌, ℤ, pos, negsuc, Bool, true, false, none, some, List, [], ◌∷◌, length, All,
  list_eq, if◌then◌else◌, leb, ◌+◌, ◌==◌,
}
use javaprofiler.Run.{Run, ok, ◌>>=◌}
use javaprofiler.Os.{
  Message, sending_to, start_failed, trace_error, attach_failed, context_null, path_too_long,
  not_enabled,
}
use javaprofiler.ProfileData.{World, enabled, start}
use javaprofiler.ProfileData.Stop.{stop, destroy}
use javaprofiler.ProfileData.FlushTable.{flush_table}
use javaprofiler.ProfileData.Add.{add}
use javaprofiler.ProfileData.Isolation.{
  Ensures, Ensures-bind, Ensures-if, anything, AllApart, print-Apart,
}
use javaprofiler.ProfileData.Isolation.Calls.{
  KeepsApart, stop-Apart, flush_table-Apart, add-Apart, start-Apart,
}
use javaprofiler.JavaProfiler.{
  Process, Frame, Signal, Action, sig_dfl, sig_ign, prof_handler_action, path_size, frequency, say,
  attach, collect, record_trace, prof_handler, deliver_to, deliver, enable_handler, disable_handler,
  start_profiler, stop_profiler, destroy_profiler, flush_profiler, on_jvm_stop, on_jvm_start,
  report_start, is_set, start_profiling, start0, stop0,
}
use javaprofiler.JavaProfiler.Events.{
  Event, starts, stops, vm_init, vm_death, flush, expires, exits, expire, step, run,
}

-- No event names the file at `q`.
abbrev pub NamesOther : List ℕ → Event → Type 0
NamesOther q (starts (some path)) = list_eq path q ≡ false
NamesOther q _ = Unit {0}

-- The file at `q` holds `c`, and neither a descriptor nor the stored path refers to it.
pub record LeavesAlone (q c : List ℕ) (p : Process) : Type 0 where
  pub apart : AllApart q c p.world
  pub path : list_eq p.profile_path q ≡ false

module _ (q c : List ℕ) where
  abbrev Keeps : Process → Type 0
  Keeps = LeavesAlone q c

  abbrev KeepsResult : Bool × Process → Type 0
  KeepsResult r = Keeps r.1

  say-Keeps : (m : Message) (p : Process) → Keeps p → Keeps (say m p)
  say-Keeps m p k = record { apart = print-Apart q c m p.world.os k.apart; path = k.path }

  -- A call of the collector, with its result put back.
  collector-Keeps :
      (p : Process) (m : Run World)
      → Keeps p
      → Ensures (AllApart q c) m
      → Ensures Keeps (m >>= λ w. ok (record p { world = w }))
  collector-Keeps p m k h =
      Ensures-bind (AllApart q c) Keeps m _ h λ w a. record { apart = a; path = k.path }

  attach-Keeps : (ret : ℤ) (p : Process) → Keeps p → Keeps (attach ret p)
  attach-Keeps (pos zero) p k = k
  attach-Keeps (pos (suc n)) p k = say-Keeps (attach_failed (pos (suc n))) p k
  attach-Keeps (negsuc n) p k = say-Keeps (attach_failed (negsuc n)) p k

  record_trace-Keeps :
      (n : ℤ) (storage : List Frame) (p : Process)
      → Keeps p
      → Ensures Keeps (record_trace n storage p)
  unfolding record_trace
  record_trace-Keeps (negsuc n) storage p k = say-Keeps (trace_error (negsuc n)) p k
  record_trace-Keeps (pos n) storage p k =
      Ensures-bind (λ s. Unit {0}) Keeps (collect n storage []) _ (anything _)
        λ stack _.
          collector-Keeps p (add (pos (length stack)) stack p.world) k
            (add-Apart q c (pos (length stack)) stack p.world k.apart)

  prof_handler-Keeps : (sig : Signal) (p : Process) → Keeps p → Ensures Keeps (prof_handler sig p)
  unfolding prof_handler
  prof_handler-Keeps sig p k =
      let p' = attach sig.attach_result p in
      let k' = attach-Keeps sig.attach_result p k in
      Ensures-if Keeps sig.context (record_trace sig.num_frames sig.storage p')
        (ok (say context_null p')) (record_trace-Keeps sig.num_frames sig.storage p' k')
        (say-Keeps context_null p' k')

  deliver_to-Keeps :
      (a : Action) (sig : Signal) (p : Process) → Keeps p → Ensures Keeps (deliver_to a sig p)
  unfolding deliver_to
  deliver_to-Keeps sig_dfl sig p k = tt
  deliver_to-Keeps sig_ign sig p k = k
  deliver_to-Keeps prof_handler_action sig p k = prof_handler-Keeps sig p k

  start_profiler-Keeps :
      (path : List ℕ) (p : Process)
      → list_eq path q ≡ false
      → Keeps p
      → Ensures KeepsResult (start_profiler path p)
  unfolding start_profiler enable_handler
  start_profiler-Keeps path p n k = Ensures-if KeepsResult (enabled p.world) (ok (false, p)) _ k (
      Ensures-bind (KeepsApart q c) KeepsResult (start path (pos frequency) p.world) _
        (start-Apart q c path (pos frequency) p.world n k.apart)
        λ r a. either_result r.0 (record p { world = r.1 }) (record { apart = a; path = k.path }))
    where
      either_result :
          (b : Bool) (p' : Process)
          → Keeps p'
          → Keeps (if◌then◌else◌ {A = Bool × Process} b (true, enable_handler p') (false, p')).1
      either_result true p' h = record { apart = h.apart; path = h.path }
      either_result false p' h = h

  stop_profiler-Keeps : (p : Process) → Keeps p → Ensures Keeps (stop_profiler p)
  unfolding stop_profiler disable_handler
  stop_profiler-Keeps p k =
      Ensures-if Keeps (enabled p.world) _ (ok (say not_enabled p))
        (collector-Keeps (disable_handler p) (stop p.world)
          (record { apart = k.apart; path = k.path }) (stop-Apart q c p.world k.apart))
        (say-Keeps not_enabled p k)

  destroy_profiler-Keeps : (p : Process) → Keeps p → Ensures Keeps (destroy_profiler p)
  unfolding destroy_profiler destroy
  destroy_profiler-Keeps p k =
      Ensures-bind Keeps Keeps (stop_profiler p) _ (stop_profiler-Keeps p k)
        λ p' k'. collector-Keeps p' (stop p'.world) k' (stop-Apart q c p'.world k'.apart)

  flush_profiler-Keeps : (p : Process) → Keeps p → Ensures Keeps (flush_profiler p)
  unfolding flush_profiler disable_handler enable_handler
  flush_profiler-Keeps p k =
      Ensures-if Keeps (enabled p.world) _ (ok p)
        (Ensures-bind (AllApart q c) Keeps (flush_table p.world) _
          (flush_table-Apart q c p.world k.apart) λ w a. record { apart = a; path = k.path })
        k

  on_jvm_start-Keeps : (p : Process) → Keeps p → Ensures Keeps (on_jvm_start p)
  unfolding on_jvm_start report_start
  on_jvm_start-Keeps p k =
      let p' = record p { jvm_started = true } in
      let k' : Keeps p' = record { apart = k.apart; path = k.path } in
      Ensures-if Keeps (is_set p.profile_path) _ (ok p')
        (Ensures-bind KeepsResult Keeps (start_profiler p.profile_path p') _
          (start_profiler-Keeps p.profile_path p' k.path k') λ r h. report_start-Keeps r.0 r.1 h)
        k'
    where
      report_start-Keeps : (b : Bool) (p' : Process) → Keeps p' → Keeps (report_start (b, p'))
      report_start-Keeps false p' h = say-Keeps start_failed p' h
      report_start-Keeps true p' h =
          say-Keeps (sending_to p'.profile_path) (record p' { auto_started = true })
            (record { apart = h.apart; path = h.path })

  start_profiling-Keeps :
      (path : List ℕ) (p : Process)
      → list_eq path q ≡ false
      → Keeps p
      → Ensures KeepsResult (start_profiling path p)
  unfolding start_profiling
  start_profiling-Keeps path p n k =
      let p' = record p { profile_path = path } in
      let k' : Keeps p' = record { apart = k.apart; path = n } in
      Ensures-if KeepsResult (leb path_size (1 + length path)) (ok (false, say path_too_long p)) _
        (say-Keeps path_too_long p k)
        (Ensures-if KeepsResult p.jvm_started (start_profiler path p') (ok (true, p'))
          (start_profiler-Keeps path p' n k') k')

  step-Keeps : (e : Event) (p : Process) → NamesOther q e → Keeps p → Ensures Keeps (step e p)
  unfolding step start0 stop0 on_jvm_stop expire
  step-Keeps (starts none) p n k = tt
  step-Keeps (starts (some path)) p n k =
      Ensures-bind KeepsResult Keeps (start_profiling path p) _ (start_profiling-Keeps path p n k)
        λ r h. h
  step-Keeps stops p n k =
      Ensures-bind KeepsResult Keeps (stop_profiler p >>= λ p'. ok (true, p')) (λ r. ok r.1)
        (Ensures-bind Keeps KeepsResult (stop_profiler p) _ (stop_profiler-Keeps p k) λ p' h. h)
        λ r h. h
  step-Keeps vm_init p n k = on_jvm_start-Keeps p k
  step-Keeps vm_death p n k =
      Ensures-if Keeps p.auto_started (stop_profiler p) (ok p) (stop_profiler-Keeps p k) k
  step-Keeps flush p n k = flush_profiler-Keeps p k
  step-Keeps (expires sig) p n k =
      Ensures-if Keeps (p.timer == 0) (ok p) (deliver sig p) k
        (deliver_to-Keeps p.sigprof.action sig p k)
  step-Keeps exits p n k = destroy_profiler-Keeps p k

-- A file that neither a descriptor nor the stored path refers to, and that no start in a sequence
-- of events names, holds what it held after the sequence, if it returns, whatever the kernel and
-- the JVM answer.
pub run-LeavesAlone :
    (q c : List ℕ) (es : List Event) (p : Process)
    → LeavesAlone q c p
    → All (NamesOther q) es
    → Ensures (LeavesAlone q c) (run es p)
unfolding run
run-LeavesAlone q c [] p k n = k
run-LeavesAlone q c (e ∷ es) p k n =
    Ensures-bind (LeavesAlone q c) (LeavesAlone q c) (step e p) (run es) (step-Keeps q c e p n.0 k)
      λ p' k'. run-LeavesAlone q c es p' k' n.1
