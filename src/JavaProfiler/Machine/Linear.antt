-- ===== src/JavaProfiler/Machine/Linear.antt =====
-- A flush and a stop of java_profiler.cc with signals between their steps.
use javaprofiler.Base.{
  ℕ, ◌+◌, ◌<◌, ◌≡◌, refl, ap, sym, ◌/◌, ◌∙◌, pos, List, [], ◌∷◌, ◌++◌, length, All, arith, word_mod,
  if◌then◌else◌, ◌==◌,
}
use javaprofiler.Run.{ok, ◌>>=◌, same_chain, Returns}
use javaprofiler.ProfileData.Tracks.Control.{stop-Finished}
use javaprofiler.ProfileData.Tracks.Flush.{flush_table-Flushed}
use javaprofiler.JavaProfiler.{
  Process, Signal, frequency, enabling, disabling, install, deliver, enable_handler,
  disable_handler, flush_profiler, stop_profiler, stop0,
}
use javaprofiler.JavaProfiler.Signals.{sampled}
use javaprofiler.JavaProfiler.Phase.{IsActive, IsActive-enabled}
use javaprofiler.JavaProfiler.Events.{Event, flush, stops, expires, expire, step, run}
use javaprofiler.JavaProfiler.Events.Lifetime.{run-append}
use javaprofiler.JavaProfiler.Events.Safety.{expire-Active, length-sampled}
use javaprofiler.JavaProfiler.Events.Profile.{traced, IsTraced}
use javaprofiler.JavaProfiler.Machine.{
  Control, outside, stop_uninstall, flush_uninstall, flush_collector, flush_install, flush_arm,
  stop_collector, Move, calls_stop, calls_flush, advances, ticks, call_flush, call_stop, if_outside,
  advance, move, moves, with_timer,
}

-- The signals of one gap, as moves and as events.
unfoldable pub ticking : List Signal → List Move
ticking [] = []
ticking (sig ∷ sigs) = ticks sig ∷ ticking sigs

unfoldable pub signals : List Signal → List Event
signals [] = []
signals (sig ∷ sigs) = expires sig ∷ signals sigs

-- A flush with signals before its first step, after its second, third and fourth, and at its end.
abbrev pub flush_schedule : (first second third fourth last : List Signal) → List Move
flush_schedule first second third fourth last =
    calls_flush
    ∷ (ticking first
        ++ (advances
            ∷ advances
            ∷ (ticking second
                ++ (advances
                    ∷ (ticking third
                        ++ (advances ∷ (ticking fourth ++ (advances ∷ ticking last))))))))

-- A stop with signals before its first step, and after its second and third.
abbrev pub stop_schedule : (first second last : List Signal) → List Move
stop_schedule first second last =
    calls_stop
    ∷ (ticking first ++ (advances ∷ advances ∷ (ticking second ++ (advances ∷ ticking last))))

signals-Active :
    (path : List ℕ) (sigs : List Signal) (stacks : List (List ℕ)) (p : Process)
    → IsActive path stacks p
    → All IsTraced sigs
    → length stacks + length sigs < word_mod
    → Returns (run (signals sigs) p) (IsActive path (traced sigs stacks))
unfolding run signals traced step
signals-Active path [] stacks p a v few = (p, refl, a)
signals-Active path (sig ∷ sigs) stacks p a v few =
    let (p₁, run₁, b) = expire-Active sig path stacks p a v.0 (omega arith) in
    let (p₂, run₂, c) =
      signals-Active path sigs (sampled sig stacks) p₁ b v.1
        (omega (arith, length-sampled sig stacks)) in
    (p₂, rw run₁ run₂, c)

-- The signals of a gap, with what follows them and at the end.
ticking-run :
    (sigs : List Signal) (rest : List Move) (c : Control) (p : Process)
    → moves (ticking sigs ++ rest) c p ≡ (run (signals sigs) p >>= λ p'. moves rest c p')
unfolding run signals step ticking moves move
ticking-run [] rest c p = refl
ticking-run (sig ∷ sigs) rest c p =
    same_chain (expire sig p) _ _ _ _ (λ p'. ticking-run sigs rest c p')

-- A gap where the timer is disarmed.
signals-disarmed : (sigs : List Signal) (p : Process) → p.timer ≡ 0 → run (signals sigs) p ≡ ok p
unfolding run signals step expire
signals-disarmed [] p h = refl
signals-disarmed (sig ∷ sigs) p h =
    ap (λ (t : ℕ). (if t == 0 then ok p else deliver sig p) >>= run (signals sigs)) h
    ∙ signals-disarmed sigs p h

ticking-last :
    (sigs : List Signal) (c : Control) (p : Process)
    → moves (ticking sigs) c p ≡ (run (signals sigs) p >>= λ p'. ok (c, p'))
unfolding run signals step ticking moves move
ticking-last [] c p = refl
ticking-last (sig ∷ sigs) c p = same_chain (expire sig p) _ _ _ _ (λ p'. ticking-last sigs c p')

-- The signals of a gap that returns.
ticking-ok :
    (sigs : List Signal) (rest : List Move) (c : Control) (p p' : Process)
    → run (signals sigs) p ≡ ok p'
    → moves (ticking sigs ++ rest) c p ≡ moves rest c p'
ticking-ok sigs rest c p p' h = ticking-run sigs rest c p ∙ ap (λ m. m >>= λ q. moves rest c q) h

-- The events of an operation between signals.
around :
    (before after : List Signal) (e : Event) (p p₁ p₂ : Process)
    → run (signals before) p ≡ ok p₁
    → step e p₁ ≡ ok p₂
    → run (signals before ++ (e ∷ signals after)) p ≡ run (signals after) p₂
unfolding run
around before after e p p₁ p₂ h k =
    run-append (signals before) (e ∷ signals after) p
    ∙ ap (λ m. m >>= run (e ∷ signals after)) h
    ∙ ap (λ m. m >>= run (signals after)) k

module _ (path : List ℕ) (stacks : List (List ℕ)) (p : Process) (a : IsActive path stacks p)
    (first : List Signal) (v : All IsTraced first)
    (few : length stacks + length first < word_mod) where
  flush_schedule-eq :
      (second third fourth last : List Signal)
      → moves (flush_schedule first second third fourth last) outside p
        ≡ (run (signals first ++ (flush ∷ signals last)) p >>= λ p'. ok (outside, p'))
  unfolding moves move if_outside call_flush advance step flush_profiler disable_handler
      enable_handler
  flush_schedule-eq second third fourth last =
      let (p₁, run₁, b) = signals-Active path first stacks p a v few in
      let p₂ = with_timer 0 (install disabling p₁) in
      let (w, flushes, _) =
        flush_table-Flushed path (pos frequency) (traced first stacks) p₁.world b.tracks in
      let p₃ = record p₂ { world = w } in
      let p₄ = install enabling p₃ in
      let on₁ = IsActive-enabled path (traced first stacks) p₁ b in
      let whole : step flush p₁ ≡ ok (enable_handler p₃) = rw (on₁, flushes) refl in
      let done' = ticking-last last outside (with_timer (1000000 / frequency) p₄) in
      let on = IsActive-enabled path stacks p a in
      rw
        (
          on,
          ticking-ok first _ flush_uninstall p p₁ run₁,
          ticking-ok second _ flush_collector p₂ p₂ (signals-disarmed second p₂ refl),
          flushes,
          ticking-ok third _ flush_install p₃ p₃ (signals-disarmed third p₃ refl),
          ticking-ok fourth _ flush_arm p₄ p₄ (signals-disarmed fourth p₄ refl),
          done',
        )
        (ap (λ m. m >>= λ p'. ok (outside, p')) (sym (around first last flush p p₁ _ run₁ whole)))

  stop_schedule-eq :
      (second last : List Signal)
      → moves (stop_schedule first second last) outside p
        ≡ (run (signals first ++ (stops ∷ signals last)) p >>= λ p'. ok (outside, p'))
  unfolding moves move if_outside call_stop advance step stop0 stop_profiler disable_handler
  stop_schedule-eq second last =
      let (p₁, run₁, b) = signals-Active path first stacks p a v few in
      let p₂ = with_timer 0 (install disabling p₁) in
      let (w, stopped, _) =
        stop-Finished path (pos frequency) (traced first stacks) p₁.world b.tracks in
      let p₃ = record p₂ { world = w } in
      let on = IsActive-enabled path stacks p a in
      let on₁ = IsActive-enabled path (traced first stacks) p₁ b in
      let whole : step stops p₁ ≡ ok p₃ = rw (on₁, stopped) refl in
      rw
        (
          on,
          ticking-ok first _ stop_uninstall p p₁ run₁,
          ticking-ok second _ stop_collector p₂ p₂ (signals-disarmed second p₂ refl),
          stopped,
          ticking-last last outside p₃,
        )
        (ap (λ m. m >>= λ p'. ok (outside, p')) (sym (around first last stops p p₁ _ run₁ whole)))

-- FlushTable and Stop of a running profiler, with signals before their first step, none between the
-- two system calls of DisableHandler, and any at the later points, do the same as the whole
-- operation after the first of these signals and before the last, if the first signals bring an
-- error code or 1 to 32 frames and are fewer than 2 ^ 64 with the samples so far.
pub schedules-eq :
    (path : List ℕ) (stacks : List (List ℕ)) (p : Process)
    (first second third fourth last : List Signal)
    → IsActive path stacks p
    → All IsTraced first
    → length stacks + length first < word_mod
    → (moves (flush_schedule first second third fourth last) outside p
        ≡ (run (signals first ++ (flush ∷ signals last)) p >>= λ p'. ok (outside, p')))
      × (moves (stop_schedule first second last) outside p
          ≡ (run (signals first ++ (stops ∷ signals last)) p >>= λ p'. ok (outside, p')))
schedules-eq path stacks p first second third fourth last a v few = (
  flush_schedule-eq path stacks p a first v few second third fourth last,
  stop_schedule-eq path stacks p a first v few second last,
)
