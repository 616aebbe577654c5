-- ===== src/JavaProfiler/Machine.antt =====
-- The control operations of java_profiler.cc in their single steps: the thread that starts, stops or
-- flushes, with SIGPROF delivered between any two of its calls of `sigaction`, `setitimer` and the
-- collector.
pub mod Points
pub mod Windows
pub mod Linear
use javaprofiler.Base.{ℕ, ◌/◌, Bool, true, false, List, [], ◌∷◌, if◌then◌else◌}
use javaprofiler.Run.{Run, ok, ◌>>=◌}
use javaprofiler.Os.{not_enabled}
use javaprofiler.ProfileData.{enabled, start}
use javaprofiler.ProfileData.Stop.{stop}
use javaprofiler.ProfileData.FlushTable.{flush_table}
use javaprofiler.JavaProfiler.{
  Process, Signal, SigAction, frequency, install, enabling, disabling, collector_options, say,
}
use javaprofiler.JavaProfiler.Events.{expire}

-- What the thread does next: a call of `sigaction` (install, uninstall), of `setitimer` (arm, disarm)
-- or of the collector, in the operation that the name begins with.
pub data Control : Type 0 where
  outside : Control
  start_install : Control
  start_arm : Control
  stop_uninstall : Control
  stop_disarm : Control
  stop_collector : Control
  flush_uninstall : Control
  flush_disarm : Control
  flush_collector : Control
  flush_install : Control
  flush_arm : Control

abbrev pub Machine : Type 0
Machine = Control × Process

-- The thread calls an operation or goes one step on, or the timer expires.
pub data Move : Type 0 where
  calls_start : List ℕ → Move
  calls_stop : Move
  calls_flush : Move
  advances : Move
  ticks : Signal → Move

abbrev pub with_timer : ℕ → Process → Process
with_timer t p = record p { timer = t }

unfoldable pub call_start : List ℕ → Process → Run Machine
call_start path p =
    if enabled p.world
    then ok (outside, p)
    else (start path collector_options.frequency p.world >>= λ r.
        ok (if r.0 then start_install else outside, record p { world = r.1 }))

unfoldable pub call_stop : Process → Run Machine
call_stop p = if enabled p.world then ok (stop_uninstall, p) else ok (outside, say not_enabled p)

unfoldable pub call_flush : Process → Run Machine
call_flush p = ok (if enabled p.world then flush_uninstall else outside, p)

unfoldable pub advance : Control → Process → Run Machine
advance outside p = ok (outside, p)
advance start_install p = ok (start_arm, install enabling p)
advance start_arm p = ok (outside, with_timer (1000000 / frequency) p)
advance stop_uninstall p = ok (stop_disarm, install disabling p)
advance stop_disarm p = ok (stop_collector, with_timer 0 p)
advance stop_collector p = stop p.world >>= λ w. ok (outside, record p { world = w })
advance flush_uninstall p = ok (flush_disarm, install disabling p)
advance flush_disarm p = ok (flush_collector, with_timer 0 p)
advance flush_collector p = flush_table p.world >>= λ w. ok (flush_install, record p { world = w })
advance flush_install p = ok (flush_arm, install enabling p)
advance flush_arm p = ok (outside, with_timer (1000000 / frequency) p)

-- A thread that is inside an operation calls none.
unfoldable pub if_outside : Control → Run Machine → Process → Run Machine
if_outside outside called p = called
if_outside c called p = ok (c, p)

unfoldable pub move : Move → Control → Process → Run Machine
move (calls_start path) c p = if_outside c (call_start path p) p
move calls_stop c p = if_outside c (call_stop p) p
move calls_flush c p = if_outside c (call_flush p) p
move advances c p = advance c p
move (ticks sig) c p = expire sig p >>= λ p'. ok (c, p')

unfoldable pub moves : List Move → Control → Process → Run Machine
moves [] c p = ok (c, p)
moves (m ∷ ms) c p = move m c p >>= λ s. moves ms s.0 s.1
