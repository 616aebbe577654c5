-- ===== src/Agent/Callbacks.antt =====
-- The callbacks of agent.cpp for the start and the end of the JVM, with the profiler that they start
-- and stop.
use javaprofiler.Base.{
  ℕ, ◌≡◌, refl, ap, ◌∙◌, pos, Bool, true, false, List, ◌∷◌, if◌then◌else◌, arith,
}
use javaprofiler.Run.{Run, ok, ◌>>=◌, Returns}
use javaprofiler.ProfileData.Tracks.Control.{Finished}
use javaprofiler.JavaProfiler.{Process, frequency, on_jvm_start, on_jvm_stop, stop_profiler}
use javaprofiler.JavaProfiler.Phase.{IsIdle, IsActive, stop_profiler-Finished}
use javaprofiler.Agent.{
  Agent, vm_death_event, vm_death_callback, enter_critical_section, exit_critical_section,
  check_jvmti_error,
}

-- The loaded library: the globals of both files.
pub record Library : Type 0 where
  pub agent : Agent
  pub process : Process

-- `callbackVMInit`
unfoldable pub vm_init_callback : Library → Run Library
vm_init_callback l = on_jvm_start l.process >>= λ p. ok (record l { process = p })

-- `callbackVMDeath`; the arguments are what the calls on the raw monitor return.
unfoldable pub vm_death : ℕ → ℕ → Library → Run Library
vm_death entered exited l =
    let agent' = vm_death_callback entered exited l.agent in
    on_jvm_stop l.process >>= λ p. ok (record { agent = agent'; process = p })

-- The monitor is held for the message only.
vm_death_callback-balanced :
    (a : Agent)
    → ((vm_death_callback 0 0 a).lock_depth ≡ a.lock_depth)
      × ((vm_death_callback 0 0 a).lines ≡ vm_death_event ∷ a.lines)
unfolding vm_death_callback enter_critical_section exit_critical_section check_jvmti_error
vm_death_callback-balanced a = (omega arith, refl)

-- At the JVM's death, if the raw monitor works and no write to come fails, a running profile that
-- the JVM's start began is stopped and its file finished; the monitor is held as deep as before,
-- and the event is printed.
pub vm_death-Finished :
    (path : List ℕ) (stacks : List (List ℕ)) (l : Library)
    → IsActive path stacks l.process
    → l.process.auto_started ≡ true
    → Returns (vm_death 0 0 l) λ l'.
      IsIdle l'.process
      × Finished path (pos frequency) stacks l'.process.world
      × (l'.agent.lock_depth ≡ l.agent.lock_depth)
      × (l'.agent.lines ≡ vm_death_event ∷ l.agent.lines)
unfolding vm_death on_jvm_stop
vm_death-Finished path stacks l a auto =
    let (p, run, (idle, f)) = stop_profiler-Finished path stacks l.process a in
    let (depth, lines) = vm_death_callback-balanced l.agent in
    let stopped : on_jvm_stop l.process ≡ ok p =
      ap (λ (b : Bool). if b then stop_profiler l.process else ok l.process) auto ∙ run in
    (
      record { agent = vm_death_callback 0 0 l.agent; process = p },
      rw stopped,
      (idle, f, depth, lines),
    )

-- At the JVM's death, if the raw monitor works, a running profile that was not begun by the JVM's
-- start goes on with the same samples.
pub vm_death-IsActive :
    (path : List ℕ) (stacks : List (List ℕ)) (l : Library)
    → IsActive path stacks l.process
    → l.process.auto_started ≡ false
    → Returns (vm_death 0 0 l) λ l'. IsActive path stacks l'.process
unfolding vm_death on_jvm_stop
vm_death-IsActive path stacks l a manual =
    let kept : on_jvm_stop l.process ≡ ok l.process =
      ap (λ (b : Bool). if b then stop_profiler l.process else ok l.process) manual in
    (record { agent = vm_death_callback 0 0 l.agent; process = l.process }, rw kept, a)
