-- ===== src/Tests/Jvmti.antt =====
-- The theorems about agent.cpp at concrete inputs.
use javaprofiler.Base.{
  ℕ, ◌+◌, ◌≡◌, refl, pos, [], ◌∷◌, none, some, true, false, if◌then◌else◌, ◌==◌, arith,
}
use javaprofiler.Run.{Returns, ok, fault, out_of_bounds}
use javaprofiler.Agent.{
  Agent, vm_death_event, on_vm_death, on_class_prepare, on_class_load, jvmti_deallocate,
  on_class_prepare_callback,
}
use javaprofiler.Agent.Memory.{count, jvmti_deallocate-count}
use javaprofiler.Agent.ClassPrepare.{on_class_prepare-outcome}
use javaprofiler.Agent.Callbacks
use javaprofiler.Agent.LineTable
use javaprofiler.Agent.MethodInfo
use javaprofiler.Agent.OnLoad
use javaprofiler.ProfileData.Tracks.Control.{Finished}
use javaprofiler.JavaProfiler.Phase.{IsIdle, IsActive}
use javaprofiler.Tests.{path, running_process, running_process-IsActive}

abbrev agent : Agent
agent = record {
  jvmti = true;
  live = 64 ∷ [];
  lines = [];
  line_numbers_capability = true;
  callbacks_set = true;
  notifications = [];
  lock_created = true;
  lock_depth = 0;
  error_block = λ err. 0;
}

jvmti_deallocate-count_example :
    Returns
      (jvmti_deallocate 64 0 agent)
      λ a'. (q : ℕ) → count q a'.live + (if 64 == q then 1 else 0) ≡ count q agent.live
unfolding count
jvmti_deallocate-count_example = jvmti_deallocate-count 64 0 agent (omega arith) (omega arith)

-- A method with two lines.
abbrev line_table : LineTable.Answers
line_table = record {
  err = 0;
  table_ptr = 128;
  table =
      record { start_location = pos 0; line_number = pos 10 }
      ∷ record { start_location = pos 4; line_number = pos 11 }
      ∷ [];
  array_made = true;
  free_err = 0;
}

get_line_number_table0-pairs_example :
    Returns (LineTable.get_line_number_table0 line_table agent) λ r.
      (r.0 ≡ some (LineTable.pairs line_table.table))
      × ((q : ℕ) → count q r.1.live ≡ count q agent.live)
get_line_number_table0-pairs_example =
    LineTable.get_line_number_table0-pairs line_table agent refl refl (omega arith)

abbrev no_memory : LineTable.Answers
no_memory = record line_table { array_made = false }

-- A method without a generic signature.
abbrev method : MethodInfo.Answers
method = record {
  name = some (record { ptr = 256; chars = 102 ∷ []; made = true });
  sig = some (record { ptr = 512; chars = 40 ∷ 41 ∷ 86 ∷ []; made = true });
  gsig = none;
  class_err = 0;
  class_signature = some (record { ptr = 1024; chars = 76 ∷ 65 ∷ 59 ∷ []; made = true });
  class_found = true;
  empty_made = true;
  array_made = true;
  free_err = 0;
}

get_method_info0-texts_example : Returns (MethodInfo.get_method_info0 method agent) λ r.
    (r.0 ≡ some ((76 ∷ 65 ∷ 59 ∷ []) ∷ (102 ∷ []) ∷ (40 ∷ 41 ∷ 86 ∷ []) ∷ [] ∷ []))
    × ((q : ℕ) → count q r.1.live ≡ count q agent.live)
get_method_info0-texts_example =
    MethodInfo.get_method_info0-texts method agent (omega arith) (omega arith) (omega arith) tt
      (refl, refl, refl, refl, refl, refl, tt)

abbrev all_succeed : OnLoad.Answers
all_succeed = record {
  env_result = 0;
  env_found = true;
  capabilities_err = 0;
  callbacks_err = 0;
  vm_init_err = 0;
  vm_death_err = 0;
  class_prepare_err = 0;
  class_load_err = 0;
  monitor_err = 0;
  error_block = λ err. 4096 + err;
}

-- `VM_INIT` cannot be enabled.
abbrev no_vm_init : OnLoad.Answers
no_vm_init = record all_succeed { vm_init_err = 99 }

agent_on_load-lost_error_example : Returns (OnLoad.agent_on_load no_vm_init) λ r.
    (r.0 ≡ 0)
    × (r.1.lines ≡ [])
    × (r.1.notifications ≡ on_class_load ∷ on_class_prepare ∷ on_vm_death ∷ [])
agent_on_load-lost_error_example =
    OnLoad.agent_on_load-lost_error no_vm_init refl refl refl refl (omega arith) refl refl refl refl

on_class_prepare-outcome_example :
    (on_class_prepare_callback 0 32 agent ≡ ok agent)
    × (on_class_prepare_callback 21 32 agent ≡ fault out_of_bounds)
unfolding count
on_class_prepare-outcome_example = on_class_prepare-outcome 20 32 agent refl

-- The library while a profile runs that the JVM's start began.
abbrev library : Callbacks.Library
library = record { agent = agent; process = record running_process { auto_started = true } }

library-IsActive : IsActive path [] library.process
library-IsActive = record {
  tracks = running_process-IsActive.tracks;
  sigprof = refl;
  timer = refl;
  path_fits = running_process-IsActive.path_fits;
}

vm_death-Finished_example : Returns (Callbacks.vm_death 0 0 library) λ l'.
    IsIdle l'.process
    × Finished path (pos 50) [] l'.process.world
    × (l'.agent.lock_depth ≡ library.agent.lock_depth)
    × (l'.agent.lines ≡ vm_death_event ∷ library.agent.lines)
vm_death-Finished_example = Callbacks.vm_death-Finished path [] library library-IsActive refl

-- The library while a profile runs that a call from Java began.
abbrev manual_library : Callbacks.Library
manual_library = record { agent = agent; process = running_process }
