-- ===== src/JavaProfiler/Events/Operations.antt =====
-- Each operation of java_profiler.cc that starts, stops or flushes the profiler: what it does to the
-- globals and to what the profiler is doing.
use javaprofiler.Base.{
  ℕ, ◌+◌, ◌≤◌, ◌<◌, ◌≡◌, ◌⊎◌, refl, ap, inl, inr, List, [], length, Bool-cases, Bool, true, false,
  if◌then◌else◌, arith, leb,
}
use javaprofiler.Run.{Run, ok, ◌>>=◌, Returns}
use javaprofiler.Os.{start_failed, sending_to, path_too_long}
use javaprofiler.JavaProfiler.{
  Process, flush_profiler, path_size, say, start_profiler, stop_profiler, destroy_profiler,
  report_start, is_set, on_jvm_start, on_jvm_stop, start_profiling,
}
use javaprofiler.JavaProfiler.Phase.{
  IsIdle, IsActive-enabled, start_profiler-Started, stop_profiler-Finished, stop_profiler-IsIdle,
  flush_profiler-Flushed, destroy_profiler-idle,
}
use javaprofiler.JavaProfiler.Events.{run}
use javaprofiler.JavaProfiler.Events.Settings.{
  Setting, setting_of, returned, start_profiler-HasSetting, stop_profiler-HasSetting,
}
use javaprofiler.JavaProfiler.Events.Phases.{
  Status, waiting, running, Matches, say-Matches, with_globals-Matches, Matches-path_fits,
}

-- `Start` returns false and leaves the status, or returns true and begins a profile where there is
-- none.
abbrev pub Outcome : List ℕ → Bool → Status → Status → Type 0
Outcome path b s s' =
    ((b ≡ false) × (s' ≡ s)) ⊎ ((b ≡ true) × (s ≡ waiting) × (s' ≡ running path []))

-- A start from Java stores a path that fits, and then leaves the status or, in a running JVM, begins a
-- profile at the path.
abbrev pub Accepts : List ℕ → Setting → Status → Setting → Status → Type 0
Accepts path g s g' s' =
    ((path_size ≤ 1 + length path) × (g' ≡ g) × (s' ≡ s))
    ⊎ ((1 + length path < path_size)
        × (g' ≡ record g { stored = path })
        × ((s' ≡ s) ⊎ ((g.jvm ≡ true) × (s ≡ waiting) × (s' ≡ running path []))))

-- The start of the JVM leaves the status, or begins a profile at the stored path and marks it.
abbrev pub Initiates : Setting → Status → Setting → Status → Type 0
Initiates g s g' s' =
    ((g' ≡ record g { jvm = true }) × (s' ≡ s))
    ⊎ ((g' ≡ record g { jvm = true; auto = true }) × (s ≡ waiting) × (s' ≡ running g.stored []))

start_profiler-Matches :
    (s : Status) (path : List ℕ) (p : Process)
    → Matches s p
    → Returns (start_profiler path p) λ r.
      (s' : Status) × Outcome path r.0 s s' × (setting_of r.1 ≡ setting_of p) × Matches s' r.1
unfolding start_profiler
start_profiler-Matches (running f stacks) path p a =
    ((false, p), rw (IsActive-enabled f stacks p a), (running f stacks, inl (refl, refl), refl, a))
start_profiler-Matches waiting path p i =
    let (r, run, h) = start_profiler-Started path p i in
    let same : setting_of r.1 ≡ setting_of p =
      returned (λ (q : Bool × Process). setting_of q.1 ≡ setting_of p) (start_profiler path p) r run
        (start_profiler-HasSetting (setting_of p) path p refl) in
    (
      r,
      run,
      elim h [
        | inl (yes', a) ↦ (running path [], inr (yes', refl, refl), same, a)
        | inr (no', j) ↦ (waiting, inl (no', refl), same, j)
      ],
    )

pub stop_profiler-Matches :
    (s : Status) (p : Process) → Matches s p → Returns (stop_profiler p) IsIdle
stop_profiler-Matches waiting p i = stop_profiler-IsIdle p i
stop_profiler-Matches (running path stacks) p a =
    let (p', run, (j, _)) = stop_profiler-Finished path stacks p a in (p', run, j)

pub destroy_profiler-Matches :
    (s : Status) (p : Process) → Matches s p → Returns (destroy_profiler p) IsIdle
destroy_profiler-Matches s p h =
    let (p', run, j) = stop_profiler-Matches s p h in (p', destroy_profiler-idle p p' run j, j)

-- The branch that a test takes returns.
branches {ℓ} :
    {A : Type ℓ} (P : A → Type 0) (b : Bool) (m k : Run A)
    → (b ≡ true → Returns m P)
    → (b ≡ false → Returns k P)
    → Returns (if b then m else k) P
branches P true m k h g = h refl
branches P false m k h g = g refl

-- What `Start` does after a path is stored.
started_at :
    (path : List ℕ) (b j : Bool) (s s' : Status)
    → j ≡ true
    → Outcome path b s s'
    → (s' ≡ s) ⊎ ((j ≡ true) × (s ≡ waiting) × (s' ≡ running path []))
started_at path b j s s' up (inl (_, h)) = inl h
started_at path b j s s' up (inr (_, w, h)) = inr (up, w, h)

pub start_profiling-Matches :
    (s : Status) (path : List ℕ) (p : Process)
    → Matches s p
    → Returns
        (start_profiling path p)
        λ r. (s' : Status) × Accepts path (setting_of p) s (setting_of r.1) s' × Matches s' r.1
unfolding start_profiling
start_profiling-Matches s path p h = elim (Bool-cases (leb path_size (1 + length path))) [
  | inl long ↦ (
    (false, say path_too_long p),
    rw long,
    (s, inl (ground arith, refl, refl), say-Matches s path_too_long p h),
  )
  | inr fits ↦
      let p' = record p { profile_path = path } in
      let short : 1 + length path < path_size = ground arith in
      let h' = with_globals-Matches s p.auto_started p.jvm_started path p short h in
      rw fits (
        branches
          (λ r. (s' : Status) × Accepts path (setting_of p) s (setting_of r.1) s' × Matches s' r.1)
          p.jvm_started (start_profiler path p') (ok (true, p'))
          (λ up.
            let (r, run, (s', b, same, k)) = start_profiler-Matches s path p' h' in
            (r, run, (s', inr (short, same, started_at path r.0 p.jvm_started s s' up b), k)))
          λ _. ((true, p'), refl, (s, inr (short, refl, inl refl), h')))
]

report_start-Matches :
    (s : Status) (r : Bool × Process) → Matches s r.1 → Matches s (report_start r)
unfolding report_start
report_start-Matches s (false, p) h = say-Matches s start_failed p h
report_start-Matches s (true, p) h =
    say-Matches s (sending_to p.profile_path) (record p { auto_started = true })
      (with_globals-Matches s true p.jvm_started p.profile_path p (Matches-path_fits s p h) h)

-- The mark of a profile that the JVM's start began.
reported :
    (g : Setting) (s s' : Status) (r : Bool × Process)
    → setting_of r.1 ≡ record g { jvm = true }
    → Outcome g.stored r.0 s s'
    → Initiates g s (setting_of (report_start r)) s'
unfolding report_start
reported g s s' (false, p) same (inl (_, h)) = inl (same, h)
reported g s s' (false, p) same (inr (e, _, _)) = cc
reported g s s' (true, p) same (inl (e, _)) = cc
reported g s s' (true, p) same (inr (_, w, h)) =
    inr (ap (λ (x : Setting). record x { auto = true }) same, w, h)

pub on_jvm_start-Matches :
    (s : Status) (p : Process)
    → Matches s p
    → Returns
        (on_jvm_start p)
        λ p'. (s' : Status) × Initiates (setting_of p) s (setting_of p') s' × Matches s' p'
unfolding on_jvm_start
on_jvm_start-Matches s p h =
    let p' = record p { jvm_started = true } in
    let h' =
      with_globals-Matches s p.auto_started true p.profile_path p (Matches-path_fits s p h) h in
    let (r, run, (s', b, same, k)) = start_profiler-Matches s p.profile_path p' h' in
    branches (λ q. (s' : Status) × Initiates (setting_of p) s (setting_of q) s' × Matches s' q)
      (is_set p.profile_path) (start_profiler p.profile_path p' >>= λ r. ok (report_start r))
      (ok p')
      (λ _. (
        report_start r,
        rw run,
        (s', reported (setting_of p) s s' r same b, report_start-Matches s' r k),
      ))
      λ _. (p', refl, (s, inl (refl, refl), h'))

-- The JVM's end ends a marked profile.
abbrev pub Concludes : Bool → Status → Status → Type 0
Concludes auto s s' = ((auto ≡ true) × (s' ≡ waiting)) ⊎ ((auto ≡ false) × (s' ≡ s))

pub on_jvm_stop-Matches :
    (s : Status) (p : Process)
    → Matches s p
    → Returns (on_jvm_stop p) λ p'.
      (s' : Status) × Concludes p.auto_started s s' × (setting_of p' ≡ setting_of p) × Matches s' p'
unfolding on_jvm_stop
on_jvm_stop-Matches s p h =
    branches
      (λ p'.
        (s' : Status) × Concludes p.auto_started s s'
        × (setting_of p' ≡ setting_of p)
        × Matches s' p')
      p.auto_started (stop_profiler p) (ok p)
      (λ marked.
        let (p', run, i) = stop_profiler-Matches s p h in
        (
          p',
          run,
          (
            waiting,
            inl (marked, refl),
            returned (λ q. setting_of q ≡ setting_of p) (stop_profiler p) p' run
                (stop_profiler-HasSetting (setting_of p) p refl),
            i,
          ),
        ))
      λ unmarked. (p, refl, (s, inr (unmarked, refl), refl, h))

pub flush_profiler-Matches :
    (s : Status) (p : Process) → Matches s p → Returns (flush_profiler p) (Matches s)
unfolding flush_profiler
flush_profiler-Matches waiting p i = (p, rw i.off, i)
flush_profiler-Matches (running path stacks) p a =
    let (p', run, (b, _)) = flush_profiler-Flushed path stacks p a in (p', run, b)
