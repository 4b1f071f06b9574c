-- ===== src/Supervisor.antt =====
-- common/comm/src/supervisor.cpp: the child processes of the master, their lifecycle and restarts.
-- `fork`, `waitpid`, the shuffles and the callbacks of the monitor loop are arguments.
pub mod Startup
pub mod Batches
pub mod Processes
pub mod Monitor
pub mod Exits
pub mod Loop
mod Tests
use mould_system_backend.Common.{
  ℕ, ℤ, pos, Bool, true, false, Option, none, some, List, [], ◌∷◌, ◌++◌, ◌+◌, ◌==◌, ◌&&◌, not,
  ltb_ℤ, pos_part, if◌then◌else◌, map, String, str_eq, NameMap, store_at, update,
}
use mould_system_backend.Restart.{
  RestartPolicyConfig, RestartDecision, RestartPolicy, initial_state, evaluate_abnormal_exit,
}

pub record SupervisorModuleSpec : Type 0 where
  pub module_name : String
  pub startup_priority : ℤ

pub data ModuleLifecycleState : Type 0 where
  forked initing ready running failed : ModuleLifecycleState

pub record ModuleLifecycleRecord : Type 0 where
  pub state : ModuleLifecycleState
  pub failure_reason : String

pub record SupervisorObservabilitySnapshot : Type 0 where
  pub ready_transitions : NameMap ℕ
  pub restart_evaluations : NameMap ℕ
  pub fuse_open_events : NameMap ℕ
  pub startup_order_trace : List String
  pub restart_order_trace : List String

-- A name or a process that is not in a map has `none`. `draws` counts the shuffles so far, which is
-- what the state of the random generator depends on.
pub record Supervisor : Type 0 where
  pub draws : ℕ
  pub module_to_pid : NameMap (Option ℕ)
  pub pid_to_module : ℕ → Option String
  pub module_lifecycle : NameMap (Option ModuleLifecycleRecord)
  pub restart_policy : RestartPolicy
  pub master_alive : Bool
  pub observability : SupervisorObservabilitySnapshot

-- A new supervisor.
abbrev pub initial_supervisor : Supervisor
initial_supervisor = record {
  draws = 0;
  module_to_pid = λ name. none;
  pid_to_module = λ pid. none;
  module_lifecycle = λ name. none;
  restart_policy = λ name. initial_state;
  master_alive = true;
  observability = record {
    ready_transitions = λ name. 0;
    restart_evaluations = λ name. 0;
    fuse_open_events = λ name. 0;
    startup_order_trace = [];
    restart_order_trace = [];
  };
}

pub data ForkError : Type 0 where
  empty_name no_entrypoint already_active fork_failed : ForkError

abbrev pub has_pid : Option ℕ → Bool
has_pid none = false
has_pid (some pid) = true

unfoldable pub has_child_process : String → Supervisor → Bool
has_child_process name s = has_pid (s.module_to_pid name)

unfoldable pub child_pid_of : String → Supervisor → Option ℕ
child_pid_of name s = s.module_to_pid name

abbrev transition : ModuleLifecycleState → String → String → Supervisor → Supervisor
transition state reason name s = record s {
  module_lifecycle =
      store_at s.module_lifecycle name (some (record { state = state; failure_reason = reason }));
}

abbrev pub count_up : NameMap ℕ → String → NameMap ℕ
count_up m name = store_at m name (m name + 1)

unfoldable pub transition_to_forked : String → Supervisor → Supervisor
transition_to_forked name s = transition forked "" name s

unfoldable pub transition_to_initing : String → Supervisor → Supervisor
transition_to_initing name s = transition initing "" name s

unfoldable pub transition_to_ready : String → Supervisor → Supervisor
transition_to_ready name s =
    let t = transition ready "" name s in
    record t {
      observability = record t.observability {
        ready_transitions = count_up t.observability.ready_transitions name;
      };
    }

unfoldable pub transition_to_running : String → Supervisor → Supervisor
transition_to_running name s = transition running "" name s

unfoldable pub transition_to_failed : String → String → Supervisor → Supervisor
transition_to_failed name reason s = transition failed reason name s

unfoldable pub lifecycle_of : String → Supervisor → Option ModuleLifecycleRecord
lifecycle_of name s = s.module_lifecycle name

-- `child` is what `fork` returned to the master. `none` is success.
unfoldable pub fork_module_process : String → Bool → ℤ → Supervisor → Option ForkError × Supervisor
unfolding transition_to_forked has_child_process
fork_module_process name has_entrypoint child s =
    let pid = pos_part child in
    if str_eq name ""
    then (some empty_name, s)
    else if not has_entrypoint
    then (some no_entrypoint, s)
    else if has_child_process name s
    then (some already_active, s)
    else if ltb_ℤ child (pos 0)
    then (some fork_failed, s)
    else (
      none,
      transition_to_forked name (record s {
        module_to_pid = store_at s.module_to_pid name (some pid);
        pid_to_module = update s.pid_to_module pid (some name);
      }),
    )

abbrev is_pid : Option ℕ → ℕ → Bool
is_pid none pid = false
is_pid (some p) pid = p == pid

abbrev pub forget : String → ℕ → Supervisor → Supervisor
forget name pid s = record s {
  module_to_pid =
      if is_pid (s.module_to_pid name) pid
      then store_at s.module_to_pid name none
      else s.module_to_pid;
  pid_to_module = update s.pid_to_module pid none;
}

unfoldable pub reap_child_process : ℕ → Supervisor → Bool × Supervisor
reap_child_process pid s = elim (s.pid_to_module pid) [
  | none ↦ (false, s)
  | some name ↦ (true, forget name pid s)
]

-- What `ReadyPipeProtocol::WaitReady` answers: `none`, or the text of its error.
unfoldable pub wait_for_ready_or_transition_failed :
    String → Option String → Supervisor → Bool × Supervisor
unfolding transition_to_initing transition_to_ready transition_to_failed
wait_for_ready_or_transition_failed name none s =
    (true, transition_to_ready name (transition_to_initing name s))
wait_for_ready_or_transition_failed name (some error) s =
    (false, transition_to_failed name error (transition_to_initing name s))

abbrev pub is_settled : Option ModuleLifecycleRecord → Bool
is_settled none = false
is_settled (some r) = elim r.state [ ready ↦ true | failed ↦ true | _ ↦ false ]

unfoldable pub can_release_next_priority_batch : List String → Supervisor → Bool
unfolding lifecycle_of
can_release_next_priority_batch [] s = true
can_release_next_priority_batch (name ∷ names) s =
    is_settled (lifecycle_of name s) && can_release_next_priority_batch names s

unfoldable pub handle_abnormal_child_exit :
    String → RestartPolicyConfig → ℕ → Supervisor → RestartDecision × Supervisor
unfolding transition_to_failed
handle_abnormal_child_exit name config now s =
    let t = transition_to_failed name "abnormal child exit" s in
    let (decision, policy) = evaluate_abnormal_exit name config now t.restart_policy in
    let o = t.observability in
    (
      decision,
      record t {
        restart_policy = policy;
        master_alive = true;
        observability = record o {
          restart_evaluations = count_up o.restart_evaluations name;
          fuse_open_events =
              if decision.fuse_open then count_up o.fuse_open_events name else o.fuse_open_events;
        };
      },
    )
