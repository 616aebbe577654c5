-- ===== src/JavaProfiler/Events/Safety.antt =====
-- Sequences of events of java_profiler.cc, and the phase that the profiler is in after them.
use javaprofiler.Base.{
  ℕ, suc, ◌+◌, ◌≤◌, ◌<◌, ◌≡◌, inl, inr, refl, ap, ◌∙◌, pos, List, [], ◌∷◌, length, none, some,
  if◌then◌else◌, arith, All, word_mod, ◌==◌,
}
use mathlib.Core.Path.{ap₂}
use javaprofiler.Run.{Run, ok, Returns}
use javaprofiler.ProfileData.Isolation.{Ensures}
use javaprofiler.JavaProfiler.{
  Process, Signal, SigAction, prof_handler, frequency, enabling, deliver, deliver_to, start0, stop0,
  stop_profiler, destroy_profiler, flush_profiler,
}
use javaprofiler.JavaProfiler.Signals.{IsTrace, sampled, prof_handler-Tracks}
use javaprofiler.JavaProfiler.Phase.{IsActive}
use javaprofiler.JavaProfiler.Events.{
  Event, starts, stops, vm_init, vm_death, flush, expires, exits, expire, step, run,
}
use javaprofiler.JavaProfiler.Events.Settings.{
  Setting, setting_of, returned, expire-HasSetting, stop_profiler-HasSetting,
  destroy_profiler-HasSetting, flush_profiler-HasSetting,
}
use javaprofiler.JavaProfiler.Events.Phases.{
  Phase, idle, active, Status, waiting, running, Matches, samples_of, Phase-Matches, Matches-Phase,
}
use javaprofiler.JavaProfiler.Events.Operations.{
  Accepts, Initiates, Concludes, start_profiling-Matches, on_jvm_start-Matches, on_jvm_stop-Matches,
  flush_profiler-Matches, stop_profiler-Matches, destroy_profiler-Matches,
}

-- What is asked of an event: a path that is not null, and a trace that is an error code or 1 to 32
-- frames.
abbrev pub IsGood : Event → Type 0
IsGood (starts none) = ⊥
IsGood (starts (some path)) = Unit {0}
IsGood (expires sig) = IsTrace sig.num_frames sig.storage
IsGood stops = Unit {0}
IsGood vm_init = Unit {0}
IsGood vm_death = Unit {0}
IsGood flush = Unit {0}
IsGood exits = Unit {0}

pub length-sampled :
    (sig : Signal) (stacks : List (List ℕ)) → length (sampled sig stacks) ≤ suc (length stacks)
length-sampled sig stacks = ground arith

expire-handler :
    (sig : Signal) (p : Process)
    → p.sigprof ≡ enabling
    → p.timer ≡ 20000
    → expire sig p ≡ prof_handler sig p
unfolding expire deliver_to
expire-handler sig p e t =
    ap₂ (λ (t : ℕ) (a : SigAction). if t == 0 then ok p else deliver_to a.action sig p) t e

-- A timer that expires while the profiler is active runs the handler, which returns and adds the
-- sample that the JVM gives.
pub expire-Active :
    (sig : Signal) (path : List ℕ) (stacks : List (List ℕ)) (p : Process)
    → IsActive path stacks p
    → IsTrace sig.num_frames sig.storage
    → length stacks + 1 < word_mod
    → Returns (expire sig p) (IsActive path (sampled sig stacks))
expire-Active sig path stacks p a v few =
    let (p', run, (t, c)) = prof_handler-Tracks path (pos frequency) stacks sig p a.tracks v few in
    (
      p',
      expire-handler sig p a.sigprof a.timer ∙ run,
      record {
        tracks = t;
        sigprof = c.sigprof ∙ a.sigprof;
        timer = c.timer ∙ a.timer;
        path_fits = rw c.profile_path a.path_fits;
      },
    )

expire-idle : (sig : Signal) (p : Process) → p.timer ≡ 0 → expire sig p ≡ ok p
unfolding expire
expire-idle sig p h = ap (λ (t : ℕ). if t == 0 then ok p else deliver sig p) h

pub expire-Phase :
    (n : ℕ) (sig : Signal) (p : Process)
    → Phase n p
    → IsTrace sig.num_frames sig.storage
    → n + 1 < word_mod
    → Returns (expire sig p) (Phase (suc n))
expire-Phase n sig p (idle i) v few = (p, expire-idle sig p i.timer, idle i)
expire-Phase n sig p (active path stacks h a) v few =
    let (p', run, b) = expire-Active sig path stacks p a v (omega arith) in
    (p', run, active path (sampled sig stacks) (omega (arith, length-sampled sig stacks)) b)

-- What an event does to the globals and the status.
abbrev pub Follows : Event → Setting → Status → Setting → Status → Type 0
Follows (starts none) g s g' s' = ⊥
Follows (starts (some path)) g s g' s' = Accepts path g s g' s'
Follows vm_init g s g' s' = Initiates g s g' s'
Follows vm_death g s g' s' = Concludes g.auto s s' × (g' ≡ g)
Follows flush g s g' s' = (s' ≡ s) × (g' ≡ g)
Follows stops g s g' s' = (s' ≡ waiting) × (g' ≡ g)
Follows exits g s g' s' = (s' ≡ waiting) × (g' ≡ g)
Follows (expires sig) g waiting g' s' = (s' ≡ waiting) × (g' ≡ g)
Follows (expires sig) g (running path stacks) g' s' =
    (s' ≡ running path (sampled sig stacks)) × (g' ≡ g)

-- An operation that leaves the globals.
unchanged :
    (m : Process → Run Process) (p p' : Process)
    → m p ≡ ok p'
    → Ensures (λ q. setting_of q ≡ setting_of p) (m p)
    → setting_of p' ≡ setting_of p
unchanged m p p' run h = returned (λ q. setting_of q ≡ setting_of p) (m p) p' run h

-- Every event returns, and does that to them.
pub step-Follows :
    (e : Event) (s : Status) (p : Process)
    → Matches s p
    → IsGood e
    → samples_of s + 1 < word_mod
    → Returns
        (step e p)
        λ p'. (s' : Status) × Follows e (setting_of p) s (setting_of p') s' × Matches s' p'
unfolding step start0 stop0
step-Follows (starts none) s p h good few = absurd good
step-Follows (starts (some path)) s p h good few =
    let (r, run, k) = start_profiling-Matches s path p h in (r.1, rw run, k)
step-Follows stops s p h good few =
    let (p', run, i) = stop_profiler-Matches s p h in
    let same = unchanged stop_profiler p p' run (stop_profiler-HasSetting (setting_of p) p refl) in
    (p', rw run, (waiting, (refl, same), i))
step-Follows vm_init s p h good few = on_jvm_start-Matches s p h
step-Follows vm_death s p h good few =
    let (p', run, (s', c, same, k)) = on_jvm_stop-Matches s p h in (p', run, (s', (c, same), k))
step-Follows flush s p h good few =
    let (p', run, k) = flush_profiler-Matches s p h in
    let same =
      unchanged flush_profiler p p' run (flush_profiler-HasSetting (setting_of p) p refl) in
    (p', run, (s, (refl, same), k))
step-Follows exits s p h good few =
    let (p', run, i) = destroy_profiler-Matches s p h in
    let same =
      unchanged destroy_profiler p p' run (destroy_profiler-HasSetting (setting_of p) p refl) in
    (p', run, (waiting, (refl, same), i))
step-Follows (expires sig) waiting p i good few =
    (p, expire-idle sig p i.timer, (waiting, (refl, refl), i))
step-Follows (expires sig) (running path stacks) p a good few =
    let (p', run, b) = expire-Active sig path stacks p a good few in
    let same = unchanged (expire sig) p p' run (expire-HasSetting (setting_of p) sig p refl) in
    (p', run, (running path (sampled sig stacks), (refl, same), b))

-- An event adds at most one sample.
same_samples : (s s' : Status) → s' ≡ s → samples_of s' ≤ suc (samples_of s)
same_samples s s' h = omega (arith, ap samples_of h)

no_samples : (s s' : Status) → s' ≡ waiting → samples_of s' ≤ suc (samples_of s)
no_samples s s' h = omega (arith, ap samples_of h)

new_samples :
    (path : List ℕ) (s s' : Status) → s' ≡ running path [] → samples_of s' ≤ suc (samples_of s)
new_samples path s s' h = omega (arith, ap samples_of h)

pub Follows-samples :
    (e : Event) (g : Setting) (s : Status) (g' : Setting) (s' : Status)
    → Follows e g s g' s'
    → samples_of s' ≤ suc (samples_of s)
Follows-samples (starts none) g s g' s' h = absurd h
Follows-samples (starts (some path)) g s g' s' (inl (_, _, h)) = same_samples s s' h
Follows-samples (starts (some path)) g s g' s' (inr (_, _, inl h)) = same_samples s s' h
Follows-samples (starts (some path)) g s g' s' (inr (_, _, inr (_, _, h))) = new_samples path s s' h
Follows-samples vm_init g s g' s' (inl (_, h)) = same_samples s s' h
Follows-samples vm_init g s g' s' (inr (_, _, h)) = new_samples g.stored s s' h
Follows-samples vm_death g s g' s' (inl (_, h), _) = no_samples s s' h
Follows-samples vm_death g s g' s' (inr (_, h), _) = same_samples s s' h
Follows-samples flush g s g' s' (h, _) = same_samples s s' h
Follows-samples stops g s g' s' (h, _) = no_samples s s' h
Follows-samples exits g s g' s' (h, _) = no_samples s s' h
Follows-samples (expires sig) g waiting g' s' (h, _) = no_samples waiting s' h
Follows-samples (expires sig) g (running path stacks) g' s' (h, _) =
    omega (arith, ap samples_of h, length-sampled sig stacks)

-- What a sequence of events does to them.
abbrev pub History : List Event → Setting → Status → Setting → Status → Type 0
History [] g s g' s' = (g ≡ g') × (s ≡ s')
History (e ∷ es) g s g' s' = (k : Setting) × (m : Status) × Follows e g s k m × History es k m g' s'

pub History-samples :
    (es : List Event) (g : Setting) (s : Status) (g' : Setting) (s' : Status)
    → History es g s g' s'
    → samples_of s' ≤ samples_of s + length es
History-samples [] g s g' s' (_, h) = omega (arith, ap samples_of h)
History-samples (e ∷ es) g s g' s' (k, m, h, rest) =
    omega (arith, Follows-samples e g s k m h, History-samples es k m g' s' rest)

pub run-History :
    (es : List Event) (s : Status) (p : Process)
    → Matches s p
    → All IsGood es
    → samples_of s + length es < word_mod
    → Returns
        (run es p)
        λ p'. (s' : Status) × History es (setting_of p) s (setting_of p') s' × Matches s' p'
unfolding run
run-History [] s p h good few = (p, refl, (s, (refl, refl), h))
run-History (e ∷ es) s p h good few =
    let (p₁, run₁, (s₁, f, h₁)) = step-Follows e s p h good.0 (omega arith) in
    let bound = Follows-samples e (setting_of p) s (setting_of p₁) s₁ f in
    let (p₂, run₂, (s₂, r, h₂)) = run-History es s₁ p₁ h₁ good.1 (omega (arith, bound)) in
    (p₂, rw run₁ run₂, (s₂, (setting_of p₁, s₁, f, r), h₂))

-- From either phase, where no write to come fails, any sequence of events whose path strings are
-- not null and whose traces are error codes or have 1 to 32 frames returns, if the bound on the
-- samples before and the events are together fewer than 2 ^ 64; the profiler is then idle with the
-- timer disarmed, or active with the handler installed and at most as many samples as that sum.
pub run-Phase :
    (n : ℕ) (es : List Event) (p : Process)
    → Phase n p
    → All IsGood es
    → n + length es < word_mod
    → Returns (run es p) (Phase (n + length es))
run-Phase n es p h good few =
    let (s, bound, k) = Phase-Matches n p h in
    let (p', run₁, (s', hist, k')) = run-History es s p k good (omega arith) in
    (
      p',
      run₁,
      Matches-Phase (n + length es) s' p'
          (omega (arith, bound, History-samples es (setting_of p) s (setting_of p') s' hist)) k',
    )
