-- ===== src/Agent/OnLoad.antt =====
-- `Agent_OnLoad` of agent.cpp.
use javaprofiler.Base.{
  ℕ, ◌≡◌, ◌≢◌, refl, Bool, true, false, ◌||◌, not, [], ◌∷◌, ◌==◌, if◌then◌else◌, arith,
}
use javaprofiler.Run.{Run, ok, fault, out_of_bounds, Returns}
use javaprofiler.Agent.{
  Agent, env_error, Notification, on_vm_init, on_vm_death, on_class_prepare, on_class_load,
  log_line, check_jvmti_error,
}

-- What the JVM answers, in the order of the calls; 0 is success. `env_found` says whether `GetEnv`
-- stored a JVMTI environment.
pub record Answers : Type 0 where
  pub env_result : ℕ
  pub env_found : Bool
  pub capabilities_err : ℕ
  pub callbacks_err : ℕ
  pub vm_init_err : ℕ
  pub vm_death_err : ℕ
  pub class_prepare_err : ℕ
  pub class_load_err : ℕ
  pub monitor_err : ℕ
  pub error_block : ℕ → ℕ

-- The agent's data before the library is loaded; the argument is what `GetErrorName` will allocate.
unfoldable pub unloaded : (ℕ → ℕ) → Agent
unloaded error_block = record {
  jvmti = false;
  live = [];
  lines = [];
  line_numbers_capability = false;
  callbacks_set = false;
  notifications = [];
  lock_created = false;
  lock_depth = 0;
  error_block = error_block;
}

-- `GetEnv`, with the message if it fails; the function goes on in either case.
unfoldable pub get_env : Answers → Agent
unfolding unloaded
get_env t =
    let a = record (unloaded t.error_block) { jvmti = t.env_found } in
    if not (t.env_result == 0) || not t.env_found then log_line (env_error t.env_result) a else a

-- A call that has its effect if it succeeds.
abbrev pub on_success : ℕ → Agent → Agent → Agent
on_success err done a = if err == 0 then done else a

-- `SetEventNotificationMode`
abbrev pub notify : ℕ → Notification → Agent → Agent
notify err n a = on_success err (record a { notifications = n ∷ a.notifications }) a

-- The calls through the environment. Of the four modes only the last error is checked.
unfoldable pub set_up : Answers → Agent → Agent
unfolding check_jvmti_error
set_up t a =
    let a₁ =
      check_jvmti_error t.capabilities_err
        (on_success t.capabilities_err (record a { line_numbers_capability = true }) a) in
    let a₂ =
      check_jvmti_error t.callbacks_err
        (on_success t.callbacks_err (record a₁ { callbacks_set = true }) a₁) in
    let a₃ = notify t.vm_death_err on_vm_death (notify t.vm_init_err on_vm_init a₂) in
    let a₄ =
      notify t.class_load_err on_class_load (notify t.class_prepare_err on_class_prepare a₃) in
    let a₅ = check_jvmti_error t.class_load_err a₄ in
    check_jvmti_error t.monitor_err
      (on_success t.monitor_err (record a₅ { lock_created = true }) a₅)

-- The result is `JNI_OK`. A call through a null environment is undefined behaviour.
unfoldable pub agent_on_load : Answers → Run (ℕ × Agent)
agent_on_load t = if t.env_found then ok (0, set_up t (get_env t)) else fault out_of_bounds

-- If no JVM call fails, Agent_OnLoad returns JNI_OK with the capability, the callbacks, all four
-- notifications and the lock set up, and prints nothing.
pub agent_on_load_complete :
    (t : Answers)
    → t.env_result ≡ 0
    → t.env_found ≡ true
    → t.capabilities_err ≡ 0
    → t.callbacks_err ≡ 0
    → t.vm_init_err ≡ 0
    → t.vm_death_err ≡ 0
    → t.class_prepare_err ≡ 0
    → t.class_load_err ≡ 0
    → t.monitor_err ≡ 0
    → Returns (agent_on_load t) λ r.
      (r.0 ≡ 0)
      × (r.1.line_numbers_capability ≡ true)
      × (r.1.callbacks_set ≡ true)
      × (r.1.notifications ≡ on_class_load ∷ on_class_prepare ∷ on_vm_death ∷ on_vm_init ∷ [])
      × (r.1.lock_created ≡ true)
      × (r.1.lines ≡ [])
unfolding agent_on_load set_up get_env
agent_on_load_complete t e f c b i d p l m = (
  (0, set_up t (get_env t)),
  rw f,
  (refl, ground arith, ground arith, ground arith, ground arith, ground arith),
)

-- If the notification mode of VM_INIT fails and every other call succeeds, Agent_OnLoad returns
-- JNI_OK and prints nothing, and VM_INIT is not among the notifications.
pub agent_on_load-lost_error :
    (t : Answers)
    → t.env_result ≡ 0
    → t.env_found ≡ true
    → t.capabilities_err ≡ 0
    → t.callbacks_err ≡ 0
    → t.vm_init_err ≢ 0
    → t.vm_death_err ≡ 0
    → t.class_prepare_err ≡ 0
    → t.class_load_err ≡ 0
    → t.monitor_err ≡ 0
    → Returns (agent_on_load t) λ r.
      (r.0 ≡ 0)
      × (r.1.lines ≡ [])
      × (r.1.notifications ≡ on_class_load ∷ on_class_prepare ∷ on_vm_death ∷ [])
unfolding agent_on_load set_up get_env
agent_on_load-lost_error t e f c b i d p l m =
    ((0, set_up t (get_env t)), rw f, (refl, ground arith, ground arith))
