-- ===== src/JavaProfiler.antt =====
-- The class `JavaProfiler` of java_profiler.cc with its globals: the SIGPROF handler and timer, the
-- JNI entries that start and stop profiling, and the callbacks of the agent.
pub mod Phase
pub mod Signals
pub mod Hazards
pub mod Deferred
pub mod Events
pub mod Machine
use javaprofiler.Base.{
  ℕ, zero, suc, ◌+◌, ◌/◌, ℤ, pos, negsuc, to_word, Bool, true, false, Option, none, some, List, [],
  ◌∷◌, ◌++◌, length, leb, ltb, ◌==◌, if◌then◌else◌, arith,
}
use javaprofiler.Run.{Run, ok, fault, out_of_bounds, killed_by_signal, ◌>>=◌}
use javaprofiler.Os.{
  Os, Message, not_enabled, attach_failed, context_null, trace_error, start_failed, sending_to,
  path_too_long, print,
}
use javaprofiler.ProfileData.{
  World, ProfileData, new_profile, Options, default_options, set_frequency, enabled, start,
  max_stack_depth,
}
use javaprofiler.ProfileData.Stop.{stop, destroy}
use javaprofiler.ProfileData.FlushTable.{flush_table}
use javaprofiler.ProfileData.Add.{add}

abbrev pub frequency : ℕ
frequency = 50

-- What SIGPROF does: the value of the union of `sa_handler` and `sa_sigaction`.
pub data Action : Type 0 where
  sig_dfl : Action
  sig_ign : Action
  prof_handler_action : Action

-- `struct sigaction`: the two members share their storage.
pub record SigAction : Type 0 where
  pub action : Action
  pub siginfo : Bool

abbrev pub set_sa_handler : Action → SigAction → SigAction
set_sa_handler a sa = record sa { action = a }

abbrev pub set_sa_sigaction : Action → SigAction → SigAction
set_sa_sigaction a sa = record sa { action = a }

abbrev pub set_sa_flags : Bool → SigAction → SigAction
set_sa_flags b sa = record sa { siginfo = b }

-- The process: the singleton's collector with the system, the disposition of SIGPROF and the one it
-- replaced, the interval of ITIMER_PROF in microseconds (0 is disarmed), and the globals. The path
-- is the C string in `profilePath`.
pub record Process : Type 0 where
  pub world : World
  pub sigprof : SigAction
  pub old_handler : SigAction
  pub timer : ℕ
  pub auto_started : Bool
  pub profile_path : List ℕ
  pub jvm_started : Bool

abbrev pub path_size : ℕ
path_size = 4096

abbrev pub say : Message → Process → Process
say m p = record p { world = record p.world { os = print m p.world.os } }

-- sigaction(SIGPROF, &sa, &old_handler)
abbrev pub install : SigAction → Process → Process
install sa p = record p { old_handler = p.sigprof; sigprof = sa }

-- The local variable `sa`, every member of which is stored before it is used.
abbrev pub blank : SigAction
blank = record { action = sig_dfl; siginfo = false }

-- The structure that `EnableHandler` fills in.
abbrev pub enabling : SigAction
enabling = set_sa_flags true (set_sa_sigaction prof_handler_action (set_sa_handler sig_dfl blank))

unfoldable pub enable_handler : Process → Process
enable_handler p = record (install enabling p) { timer = 1000000 / frequency }

-- The structure that `DisableHandler` fills in: the store of a null `sa_sigaction` overwrites SIG_IGN.
abbrev pub disabling : SigAction
disabling = set_sa_flags false (set_sa_sigaction sig_dfl (set_sa_handler sig_ign blank))

unfoldable pub disable_handler : Process → Process
disable_handler p = record (install disabling p) { timer = 0 }

-- `ASGCT_CallFrame`
pub record Frame : Type 0 where
  pub lineno : ℤ
  pub method_id : ℕ

-- What the JVM answers during one signal: the result of `AttachCurrentThread`, whether the context
-- is present, and the trace that `AsyncGetCallTrace` leaves in `num_frames` and `storage`.
pub record Signal : Type 0 where
  pub attach_result : ℤ
  pub context : Bool
  pub num_frames : ℤ
  pub storage : List Frame

-- The loop that stores two slots for each frame, within both arrays; `stack` holds `depth` slots.
unfoldable pub collect : ℕ → List Frame → List ℕ → Run (List ℕ)
collect zero storage stack = ok stack
collect (suc n) [] stack = fault out_of_bounds
collect (suc n) (f ∷ storage) stack =
    if leb (length stack + 2) max_stack_depth
    then collect n storage (stack ++ f.method_id ∷ to_word f.lineno ∷ [])
    else fault out_of_bounds

unfoldable pub record_trace : ℤ → List Frame → Process → Run Process
record_trace (negsuc n) storage p = ok (say (trace_error (negsuc n)) p)
record_trace (pos frames) storage p = do
  stack ← collect frames storage []
  w ← add (pos (length stack)) stack p.world
  ok (record p { world = w })

abbrev attach : ℤ → Process → Process
attach (pos zero) p = p
attach ret p = say (attach_failed ret) p

unfoldable pub prof_handler : Signal → Process → Run Process
prof_handler sig p =
    let p' = attach sig.attach_result p in
    if sig.context then record_trace sig.num_frames sig.storage p' else ok (say context_null p')

-- The delivery of one SIGPROF.
unfoldable pub deliver_to : Action → Signal → Process → Run Process
deliver_to sig_dfl sig p = fault killed_by_signal
deliver_to sig_ign sig p = ok p
deliver_to prof_handler_action sig p = prof_handler sig p

abbrev pub deliver : Signal → Process → Run Process
deliver sig p = deliver_to p.sigprof.action sig p

abbrev pub collector_options : Options
collector_options = set_frequency (pos frequency) default_options

-- `JavaProfiler::Enabled`
unfoldable pub profiler_enabled : Process → Bool
profiler_enabled p = enabled p.world

-- The process once the constructor of the singleton has run: it starts no profile.
unfoldable pub loaded : Os → Process
loaded os = record {
  world = record { profile = new_profile; os = os };
  sigprof = blank;
  old_handler = blank;
  timer = 0;
  auto_started = false;
  profile_path = [];
  jvm_started = false;
}

-- `JavaProfiler::Start`
unfoldable pub start_profiler : List ℕ → Process → Run (Bool × Process)
start_profiler fname p =
    if enabled p.world
    then ok (false, p)
    else (start fname collector_options.frequency p.world >>= λ r.
        let p' = record p { world = r.1 } in
        ok (if r.0 then (true, enable_handler p') else (false, p')))

-- `JavaProfiler::Stop`
unfoldable pub stop_profiler : Process → Run Process
stop_profiler p =
    if enabled p.world
    then (let p' = disable_handler p in stop p'.world >>= λ w. ok (record p' { world = w }))
    else ok (say not_enabled p)

-- The destructor, which also destroys the member `collector_`.
unfoldable pub destroy_profiler : Process → Run Process
destroy_profiler p =
    stop_profiler p >>= λ p'. destroy p'.world >>= λ w. ok (record p' { world = w })

-- `JavaProfiler::FlushTable`
unfoldable pub flush_profiler : Process → Run Process
flush_profiler p =
    if enabled p.world
    then (let p' = disable_handler p in
        flush_table p'.world >>= λ w. ok (enable_handler (record p' { world = w })))
    else ok p

unfoldable pub on_jvm_stop : Process → Run Process
on_jvm_stop p = if p.auto_started then stop_profiler p else ok p

report_start : Bool × Process → Process
report_start (false, p) = say start_failed p
report_start (true, p) = say (sending_to p.profile_path) (record p { auto_started = true })

-- The test `profilePath[0]`.
abbrev pub is_set : List ℕ → Bool
is_set [] = false
is_set (c ∷ cs) = true

unfoldable pub on_jvm_start : Process → Run Process
unfolding report_start
on_jvm_start p =
    let p' = record p { jvm_started = true } in
    if is_set p.profile_path
    then (start_profiler p.profile_path p' >>= λ r. ok (report_start r))
    else ok p'

unfoldable pub start_profiling : List ℕ → Process → Run (Bool × Process)
start_profiling s p =
    let p' = record p { profile_path = s } in
    if leb path_size (1 + length s)
    then ok (false, say path_too_long p)
    else (if p.jvm_started then start_profiler s p' else ok (true, p'))

-- The JNI entries. `GetStringUTFChars` returns null when memory is short.
unfoldable pub start0 : Option (List ℕ) → Process → Run (Bool × Process)
start0 none p = fault out_of_bounds
start0 (some path) p = start_profiling path p

unfoldable pub stop0 : Process → Run (Bool × Process)
stop0 p = stop_profiler p >>= λ p'. ok (true, p')
