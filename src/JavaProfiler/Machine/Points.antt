-- ===== src/JavaProfiler/Machine/Points.antt =====
-- The state of the process at each point of the thread of java_profiler.cc.
use javaprofiler.Base.{
  ℕ, suc, ◌+◌, ◌≤◌, ◌<◌, ◌≡◌, refl, inl, inr, pos, List, [], length, arith, Option-cases,
}
use javaprofiler.Run.{Returns}
use javaprofiler.Os.{open_answer, not_enabled}
use javaprofiler.ProfileData.{enabled}
use javaprofiler.ProfileData.Tracks.{Tracks}
use javaprofiler.ProfileData.Tracks.Control.{start-Tracks, start-refused, refused, stop-Finished}
use javaprofiler.ProfileData.Tracks.Flush.{flush_table-Flushed}
use javaprofiler.JavaProfiler.{
  Process, SigAction, frequency, path_size, enabling, disabling, install,
}
use javaprofiler.JavaProfiler.Phase.{IsActive, IsActive-enabled}
use javaprofiler.JavaProfiler.Events.Phases.{Phase, idle, active, Phase-mono, say-Phase}
use javaprofiler.JavaProfiler.Machine.{
  Control, outside, start_install, start_arm, stop_uninstall, stop_disarm, stop_collector,
  flush_uninstall, flush_disarm, flush_collector, flush_install, flush_arm, call_start, call_stop,
  call_flush, advance,
}

-- The collector is enabled with at most `n` samples; SIGPROF has the disposition `sa`, and the timer's
-- interval is `t`.
pub record Collecting (n : ℕ) (sa : SigAction) (t : ℕ) (p : Process) : Type 0 where
  pub path : List ℕ
  pub stacks : List (List ℕ)
  pub few : length stacks ≤ n
  pub tracks : Tracks path (pos frequency) stacks p.world
  pub sigprof : p.sigprof ≡ sa
  pub timer : p.timer ≡ t
  pub path_fits : 1 + length p.profile_path < path_size

-- The state of the process at each point of the thread.
abbrev pub At : ℕ → Control → Process → Type 0
At n outside p = Phase n p
At n start_install p = (sa : SigAction) × Collecting n sa 0 p
At n start_arm p = Collecting n enabling 0 p
At n stop_uninstall p = Collecting n enabling 20000 p
At n stop_disarm p = Collecting n disabling 20000 p
At n stop_collector p = Collecting n disabling 0 p
At n flush_uninstall p = Collecting n enabling 20000 p
At n flush_disarm p = Collecting n disabling 20000 p
At n flush_collector p = Collecting n disabling 0 p
At n flush_install p = Collecting n disabling 0 p
At n flush_arm p = Collecting n enabling 0 p

pub Collecting-mono :
    (n : ℕ) (sa : SigAction) (t : ℕ) (p : Process) → Collecting n sa t p → Collecting (suc n) sa t p
Collecting-mono n sa t p c = record {
  path = c.path;
  stacks = c.stacks;
  few = omega (arith, c.few);
  tracks = c.tracks;
  sigprof = c.sigprof;
  timer = c.timer;
  path_fits = c.path_fits;
}

pub At-mono : (n : ℕ) (c : Control) (p : Process) → At n c p → At (suc n) c p
At-mono n outside p h = Phase-mono n p h
At-mono n start_install p (sa, h) = (sa, Collecting-mono n sa 0 p h)
At-mono n start_arm p h = Collecting-mono n enabling 0 p h
At-mono n stop_uninstall p h = Collecting-mono n enabling 20000 p h
At-mono n stop_disarm p h = Collecting-mono n disabling 20000 p h
At-mono n stop_collector p h = Collecting-mono n disabling 0 p h
At-mono n flush_uninstall p h = Collecting-mono n enabling 20000 p h
At-mono n flush_disarm p h = Collecting-mono n disabling 20000 p h
At-mono n flush_collector p h = Collecting-mono n disabling 0 p h
At-mono n flush_install p h = Collecting-mono n disabling 0 p h
At-mono n flush_arm p h = Collecting-mono n enabling 0 p h

-- A thread that begins an operation on a running profile.
pub active-Collecting :
    (n : ℕ) (path : List ℕ) (stacks : List (List ℕ)) (p : Process)
    → length stacks ≤ n
    → IsActive path stacks p
    → Collecting n enabling 20000 p
active-Collecting n path stacks p h a = record {
  path = path;
  stacks = stacks;
  few = h;
  tracks = a.tracks;
  sigprof = a.sigprof;
  timer = a.timer;
  path_fits = a.path_fits;
}

Collecting-Phase : (n : ℕ) (p : Process) → Collecting n enabling 20000 p → Phase n p
Collecting-Phase n p c =
    active c.path c.stacks c.few
      (record { tracks = c.tracks; sigprof = c.sigprof; timer = c.timer; path_fits = c.path_fits })

pub call_start-At :
    (n : ℕ) (path : List ℕ) (p : Process)
    → Phase n p
    → Returns (call_start path p) λ s. At n s.0 s.1
unfolding call_start enabled
call_start-At n path p (active f stacks h a) =
    ((outside, p), rw (IsActive-enabled f stacks p a) refl, active f stacks h a)
call_start-At n path p (idle i) = elim (Option-cases (open_answer p.world.os.opens)) [
  | inl failed ↦ (
    (outside, record p { world = refused p.world }),
    rw (i.off, start-refused path (pos frequency) p.world i.off failed) refl,
    idle (record { off = i.off; timer = i.timer; reliable = i.reliable; path_fits = i.path_fits }),
  )
  | inr (fd, opens) ↦
      let (r, run, (yes', t)) =
        start-Tracks path (pos frequency) p.world fd i.off opens (λ e. cc) i.reliable in
      (
        (start_install, record p { world = r.1 }),
        rw (i.off, run, yes') refl,
        (
          p.sigprof,
          record {
            path = path;
            stacks = [];
            few = omega arith;
            tracks = t;
            sigprof = refl;
            timer = i.timer;
            path_fits = i.path_fits;
          },
        ),
      )
]

pub call_stop-At : (n : ℕ) (p : Process) → Phase n p → Returns (call_stop p) λ s. At n s.0 s.1
unfolding call_stop
call_stop-At n p (active f stacks h a) = (
  (stop_uninstall, p),
  rw (IsActive-enabled f stacks p a) refl,
  active-Collecting n f stacks p h a,
)
call_stop-At n p (idle i) = ((outside, _), rw i.off refl, say-Phase n not_enabled p (idle i))

pub call_flush-At : (n : ℕ) (p : Process) → Phase n p → Returns (call_flush p) λ s. At n s.0 s.1
unfolding call_flush
call_flush-At n p (active f stacks h a) = (
  (flush_uninstall, p),
  rw (IsActive-enabled f stacks p a) refl,
  active-Collecting n f stacks p h a,
)
call_flush-At n p (idle i) = ((outside, p), rw i.off refl, idle i)

-- A call of `sigaction` or `setitimer`.
installed :
    (n : ℕ) (old sa : SigAction) (t : ℕ) (p : Process)
    → Collecting n old t p
    → Collecting n sa t (install sa p)
installed n old sa t p c = record {
  path = c.path;
  stacks = c.stacks;
  few = c.few;
  tracks = c.tracks;
  sigprof = refl;
  timer = c.timer;
  path_fits = c.path_fits;
}

timed :
    (n : ℕ) (sa : SigAction) (old t : ℕ) (p : Process)
    → Collecting n sa old p
    → Collecting n sa t (record p { timer = t })
timed n sa old t p c = record {
  path = c.path;
  stacks = c.stacks;
  few = c.few;
  tracks = c.tracks;
  sigprof = c.sigprof;
  timer = refl;
  path_fits = c.path_fits;
}

stopped :
    (n : ℕ) (p : Process)
    → Collecting n disabling 0 p
    → Returns (advance stop_collector p) λ s. At n s.0 s.1
unfolding advance
stopped n p c =
    let (w, run, (f, _)) = stop-Finished c.path (pos frequency) c.stacks p.world c.tracks in
    (
      (outside, record p { world = w }),
      rw run refl,
      idle
          (record { off = f.off; timer = c.timer; reliable = f.reliable; path_fits = c.path_fits }),
    )

flushed :
    (n : ℕ) (p : Process)
    → Collecting n disabling 0 p
    → Returns (advance flush_collector p) λ s. At n s.0 s.1
unfolding advance
flushed n p c =
    let (w, run, f) = flush_table-Flushed c.path (pos frequency) c.stacks p.world c.tracks in
    (
      (flush_install, record p { world = w }),
      rw run refl,
      record {
        path = c.path;
        stacks = c.stacks;
        few = c.few;
        tracks = f.tracks;
        sigprof = c.sigprof;
        timer = c.timer;
        path_fits = c.path_fits;
      },
    )

pub advance-At :
    (n : ℕ) (c : Control) (p : Process) → At n c p → Returns (advance c p) λ s. At n s.0 s.1
unfolding advance
advance-At n outside p h = (_, refl, h)
advance-At n start_install p (sa, h) = (_, refl, installed n sa enabling 0 p h)
advance-At n start_arm p h = (_, refl, Collecting-Phase n _ (timed n enabling 0 20000 p h))
advance-At n stop_uninstall p h = (_, refl, installed n enabling disabling 20000 p h)
advance-At n stop_disarm p h = (_, refl, timed n disabling 20000 0 p h)
advance-At n stop_collector p h = stopped n p h
advance-At n flush_uninstall p h = (_, refl, installed n enabling disabling 20000 p h)
advance-At n flush_disarm p h = (_, refl, timed n disabling 20000 0 p h)
advance-At n flush_collector p h = flushed n p h
advance-At n flush_install p h = (_, refl, installed n disabling enabling 0 p h)
advance-At n flush_arm p h = (_, refl, Collecting-Phase n _ (timed n enabling 0 20000 p h))
