-- ===== src/JavaProfiler/Machine/Windows.antt =====
-- Where a SIGPROF may arrive while java_profiler.cc starts, stops or flushes.
use javaprofiler.Base.{
  ℕ, suc, ◌+◌, ◌<◌, ◌≡◌, refl, ap, subst, ◌⊎◌, inl, inr, List, [], ◌∷◌, ◌++◌, length, All, arith,
  word_mod, if◌then◌else◌, ◌==◌,
}
use mathlib.Core.Path.{ap₂}
use javaprofiler.Run.{Run, ok, fault, killed_by_signal, Returns}
use javaprofiler.JavaProfiler.{Process, Signal, SigAction, enabling, disabling, deliver_to}
use javaprofiler.JavaProfiler.Signals.{IsTrace, sampled}
use javaprofiler.JavaProfiler.Phase.{IsActive}
use javaprofiler.JavaProfiler.Events.{expire}
use javaprofiler.JavaProfiler.Events.Phases.{Phase}
use javaprofiler.JavaProfiler.Events.Safety.{length-sampled, expire-Phase, expire-Active}
use javaprofiler.JavaProfiler.Machine.{
  Control, outside, start_install, start_arm, stop_uninstall, stop_disarm, stop_collector,
  flush_uninstall, flush_disarm, flush_collector, flush_install, flush_arm, Machine, Move,
  calls_start, calls_stop, calls_flush, advances, ticks, if_outside, move, moves,
}
use javaprofiler.JavaProfiler.Machine.Points.{
  Collecting, At, Collecting-mono, At-mono, active-Collecting, call_start-At, call_stop-At,
  call_flush-At, advance-At,
}

-- The points between the two system calls of `DisableHandler`.
abbrev pub InWindow : Control → Type 0
InWindow stop_disarm = Unit {0}
InWindow flush_disarm = Unit {0}
InWindow _ = ⊥

-- What the environment guarantees of a move.
abbrev pub IsGoodMove : Move → Type 0
IsGoodMove (ticks sig) = IsTrace sig.num_frames sig.storage
IsGoodMove _ = Unit {0}

-- A signal where the timer is disarmed.
tick_disarmed :
    (n : ℕ) (sig : Signal) (sa : SigAction) (p : Process)
    → Collecting n sa 0 p
    → expire sig p ≡ ok p
unfolding expire
tick_disarmed n sig sa p c =
    ap (λ (t : ℕ). if t == 0 then ok p else deliver_to p.sigprof.action sig p) c.timer

-- A signal where the handler and the timer are set.
tick_enabled :
    (n : ℕ) (sig : Signal) (p : Process)
    → Collecting n enabling 20000 p
    → IsTrace sig.num_frames sig.storage
    → n + 1 < word_mod
    → Returns (expire sig p) (Collecting (suc n) enabling 20000)
tick_enabled n sig p c v few =
    let a : IsActive c.path c.stacks p = record {
      tracks = c.tracks;
      sigprof = c.sigprof;
      timer = c.timer;
      path_fits = c.path_fits;
    } in
    let (p', run, b) = expire-Active sig c.path c.stacks p a v (omega (arith, c.few)) in
    (
      p',
      run,
      active-Collecting (suc n) c.path (sampled sig c.stacks) p'
          (omega (arith, length-sampled sig c.stacks, c.few)) b,
    )

-- A signal in the window.
tick_window :
    (n : ℕ) (sig : Signal) (p : Process)
    → Collecting n disabling 20000 p
    → expire sig p ≡ fault killed_by_signal
unfolding expire deliver_to
tick_window n sig p c =
    ap₂ (λ (t : ℕ) (a : SigAction). if t == 0 then ok p else deliver_to a.action sig p) c.timer
      c.sigprof

called-At :
    (n : ℕ) (c : Control) (p : Process) (r : Run Machine)
    → At n c p
    → (Phase n p → Returns r λ s. At n s.0 s.1)
    → Returns (if_outside c r p) λ s. At n s.0 s.1
unfolding if_outside
called-At n outside p r h f = f h
called-At n start_install p r h f = ((start_install, p), refl, h)
called-At n start_arm p r h f = ((start_arm, p), refl, h)
called-At n stop_uninstall p r h f = ((stop_uninstall, p), refl, h)
called-At n stop_disarm p r h f = ((stop_disarm, p), refl, h)
called-At n stop_collector p r h f = ((stop_collector, p), refl, h)
called-At n flush_uninstall p r h f = ((flush_uninstall, p), refl, h)
called-At n flush_disarm p r h f = ((flush_disarm, p), refl, h)
called-At n flush_collector p r h f = ((flush_collector, p), refl, h)
called-At n flush_install p r h f = ((flush_install, p), refl, h)
called-At n flush_arm p r h f = ((flush_arm, p), refl, h)

-- What one move does: it returns, or it is a signal in the window.
abbrev Step : ℕ → Move → Control → Process → Type 0
Step n m c p =
    Returns (move m c p) (λ s. At (suc n) s.0 s.1)
    ⊎ ((sig : Signal) × (m ≡ ticks sig) × (move m c p ≡ fault killed_by_signal) × InWindow c)

tick-Step :
    (n : ℕ) (sig : Signal) (c : Control) (p : Process)
    → At n c p
    → IsTrace sig.num_frames sig.storage
    → n + 1 < word_mod
    → Step n (ticks sig) c p
unfolding move
tick-Step n sig outside p h v few =
    let (p', run, k) = expire-Phase n sig p h v few in inl ((outside, p'), rw run refl, k)
tick-Step n sig start_install p (sa, h) v few =
    inl ((start_install, p), rw (tick_disarmed n sig sa p h) refl, (sa, Collecting-mono n sa 0 p h))
tick-Step n sig start_arm p h v few =
    inl
      ((start_arm, p), rw (tick_disarmed n sig enabling p h) refl, Collecting-mono n enabling 0 p h)
tick-Step n sig stop_uninstall p h v few =
    let (p', run, k) = tick_enabled n sig p h v few in inl ((stop_uninstall, p'), rw run refl, k)
tick-Step n sig stop_disarm p h v few = inr (sig, refl, rw (tick_window n sig p h) refl, tt)
tick-Step n sig stop_collector p h v few = inl (
  (stop_collector, p),
  rw (tick_disarmed n sig disabling p h) refl,
  Collecting-mono n disabling 0 p h,
)
tick-Step n sig flush_uninstall p h v few =
    let (p', run, k) = tick_enabled n sig p h v few in inl ((flush_uninstall, p'), rw run refl, k)
tick-Step n sig flush_disarm p h v few = inr (sig, refl, rw (tick_window n sig p h) refl, tt)
tick-Step n sig flush_collector p h v few = inl (
  (flush_collector, p),
  rw (tick_disarmed n sig disabling p h) refl,
  Collecting-mono n disabling 0 p h,
)
tick-Step n sig flush_install p h v few = inl (
  (flush_install, p),
  rw (tick_disarmed n sig disabling p h) refl,
  Collecting-mono n disabling 0 p h,
)
tick-Step n sig flush_arm p h v few =
    inl
      ((flush_arm, p), rw (tick_disarmed n sig enabling p h) refl, Collecting-mono n enabling 0 p h)

later :
    (n : ℕ) {r : Run Machine} → Returns r (λ s. At n s.0 s.1) → Returns r λ s. At (suc n) s.0 s.1
later n (s, run, h) = (s, run, At-mono n s.0 s.1 h)

move-Step :
    (n : ℕ) (m : Move) (c : Control) (p : Process)
    → At n c p
    → IsGoodMove m
    → n + 1 < word_mod
    → Step n m c p
unfolding move
move-Step n (calls_start path) c p h v few =
    inl (later n (called-At n c p _ h (call_start-At n path p)))
move-Step n calls_stop c p h v few = inl (later n (called-At n c p _ h (call_stop-At n p)))
move-Step n calls_flush c p h v few = inl (later n (called-At n c p _ h (call_flush-At n p)))
move-Step n advances c p h v few = inl (later n (advance-At n c p h))
move-Step n (ticks sig) c p h v few = tick-Step n sig c p h v few

-- Moves that end in a signal between the two system calls of `DisableHandler`, which kills.
pub record Killed (ms : List Move) (c : Control) (p : Process) : Type 0 where
  pub before : List Move
  pub signal : Signal
  pub after : List Move
  pub machine : Machine
  pub split : ms ≡ before ++ ticks signal ∷ after
  pub reached : moves before c p ≡ ok machine
  pub window : InWindow machine.0
  pub killed : moves ms c p ≡ fault killed_by_signal

Killed-cons :
    (m : Move) (ms : List Move) (c : Control) (p : Process) (s : Machine)
    → move m c p ≡ ok s
    → Killed ms s.0 s.1
    → Killed (m ∷ ms) c p
unfolding moves
Killed-cons m ms c p s run k = record {
  before = m ∷ k.before;
  signal = k.signal;
  after = k.after;
  machine = k.machine;
  split = ap (◌∷◌ m) k.split;
  reached = rw run k.reached;
  window = k.window;
  killed = rw run k.killed;
}

-- Whatever order a thread's calls of Start, Stop and FlushTable, their single steps and signals
-- come in, fewer than 2 ^ 64 together with the samples so far, each signal with an error code or 1
-- to 32 frames, from a point where the process is as that point demands, all of them return and the
-- process is as the last point demands, or a signal kills the process, and then it came between the
-- two system calls of DisableHandler.
pub moves-At :
    (n : ℕ) (ms : List Move) (c : Control) (p : Process)
    → At n c p
    → All IsGoodMove ms
    → n + length ms < word_mod
    → Returns (moves ms c p) (λ s. At (n + length ms) s.0 s.1) ⊎ Killed ms c p
unfolding moves
moves-At n [] c p h good few =
    let same : n ≡ n + 0 = omega arith in inl ((c, p), refl, subst (λ k. At k c p) same h)
moves-At n (m ∷ ms) c p h good few = elim (move-Step n m c p h good.0 (omega arith)) [
  | inr (sig, tick, run, window) ↦ inr (record {
    before = [];
    signal = sig;
    after = ms;
    machine = (c, p);
    split = ap (λ (x : Move). x ∷ ms) tick;
    reached = refl;
    window = window;
    killed = rw run refl;
  })
  | inl (s, run, k) ↦ elim (moves-At (suc n) ms s.0 s.1 k good.1 (omega arith)) [
    | inr kill ↦ inr (Killed-cons m ms c p s run kill)
    | inl (s', run', k') ↦
        let bound : suc n + length ms ≡ n + suc (length ms) = omega arith in
        inl (s', rw run run', subst (λ b. At b s'.0 s'.1) bound k')
  ]
]
