-- ===== src/Agent.antt =====
-- agent.cpp: the JVMTI agent. The answers of the JVM to the calls of one function are arguments;
-- the agent's state holds the blocks that JVMTI allocated for it and that are not yet freed.
pub mod Memory
pub mod ClassPrepare
pub mod LineTable
pub mod MethodInfo
pub mod OnLoad
pub mod Callbacks
use javaprofiler.Base.{
  ℕ, ◌-◌, zero, suc, ◌+◌, ◌*◌, ℤ, pos, Bool, true, false, ◌&&◌, Option, none, some, List, [], ◌∷◌,
  ◌++◌, length, ◌==◌, if◌then◌else◌,
}
use javaprofiler.Run.{Run, ok, fault, out_of_bounds, ◌>>=◌}

-- The messages that the agent prints, with their numbers.
pub data Line : Type 0 where
  jvmti_error : ℕ → Line
  deallocate_error : ℕ → Line
  vm_death_event : Line
  class_prepare_error : ℕ → Line
  env_error : ℕ → Line
  error_name : ℕ → Line
  error_number : ℕ → Line

pub data Notification : Type 0 where
  on_vm_init on_vm_death on_class_prepare on_class_load : Notification

-- `live` is a list of block addresses; 0 is the null pointer. `error_block` is what the JVM answers to
-- `GetErrorName`: the block that it allocates for the name of an error, or null.
pub record Agent : Type 0 where
  pub jvmti : Bool
  pub live : List ℕ
  pub lines : List Line
  pub line_numbers_capability : Bool
  pub callbacks_set : Bool
  pub notifications : List Notification
  pub lock_created : Bool
  pub lock_depth : ℕ
  pub error_block : ℕ → ℕ

abbrev pub log_line : Line → Agent → Agent
log_line l a = record a { lines = l ∷ a.lines }

abbrev pub keep_block : ℕ → Option (List ℕ) → Option (List ℕ)
keep_block q none = none
keep_block q (some qs) = some (q ∷ qs)

-- Removes the first occurrence of a block, if there is one.
unfoldable pub release : ℕ → List ℕ → Option (List ℕ)
release p [] = none
release p (q ∷ qs) = let later = keep_block q (release p qs) in if q == p then some qs else later

-- JVMTI's `Deallocate`: freeing what is not allocated is undefined behaviour.
unfoldable pub deallocate : ℕ → Agent → Run Agent
deallocate p a = elim (release p a.live) [
  | none ↦ fault out_of_bounds
  | some rest ↦ ok (record a { live = rest })
]

-- `jvmti_deallocate`: a null pointer is passed over; `err` is what `Deallocate` returns.
unfoldable pub jvmti_deallocate : ℕ → ℕ → Agent → Run Agent
jvmti_deallocate p err a =
    let freed =
      deallocate p a >>= λ a'. ok (if err == 0 then a' else log_line (deallocate_error err) a') in
    if p == 0 then ok a else freed

-- `GetErrorName` allocates the name of an error, which nobody frees.
abbrev pub name_error : ℕ → Agent → Agent
name_error err a =
    if a.error_block err == 0 then a else record a { live = a.error_block err ∷ a.live }

unfoldable pub check_jvmti_error : ℕ → Agent → Agent
check_jvmti_error errnum a =
    if errnum == 0 then a else log_line (jvmti_error errnum) (name_error errnum a)

-- `describe`: the error's name, or its number if `GetErrorName` fails with `err0`.
unfoldable pub describe : ℕ → ℕ → Agent → Agent
describe err err0 a =
    if err0 == 0
    then log_line (error_name err) (name_error err a)
    else log_line (error_number err) a

-- The raw monitor of the agent; `err` is what the JVMTI call returns, which acts only on success.
unfoldable pub enter_critical_section : ℕ → Agent → Agent
unfolding check_jvmti_error
enter_critical_section err a =
    check_jvmti_error err (if err == 0 then record a { lock_depth = a.lock_depth + 1 } else a)

unfoldable pub exit_critical_section : ℕ → Agent → Agent
unfolding check_jvmti_error
exit_critical_section err a =
    check_jvmti_error err (if err == 0 then record a { lock_depth = a.lock_depth - 1 } else a)

-- The agent's part of `callbackVMDeath`, before it calls `onJvmStop`.
unfoldable pub vm_death_callback : ℕ → ℕ → Agent → Agent
unfolding enter_critical_section exit_critical_section
vm_death_callback entered exited a =
    exit_critical_section exited (log_line vm_death_event (enter_critical_section entered a))

-- `OnClassPrepare`: `methods` is the variable after `GetClassMethods`. On an error the call leaves it
-- uninitialised, and the function frees it all the same.
unfoldable pub on_class_prepare_callback : ℕ → ℕ → Agent → Run Agent
on_class_prepare_callback err methods a =
    if err == 0
    then deallocate methods (record a { live = methods ∷ a.live })
    else deallocate methods (log_line (class_prepare_error err) a)

-- `OnClassLoad` and `Agent_OnUnload` have empty bodies.
unfoldable pub on_class_load_callback : Agent → Agent
on_class_load_callback a = a

unfoldable pub agent_on_unload : Agent → Agent
agent_on_unload a = a

-- `Profiler.getMagic0`
unfoldable pub get_magic0 : ℕ
get_magic0 = 12345678
