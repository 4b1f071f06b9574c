-- ===== src/Supervisor/Tests.antt =====
-- A master with a camera module and an inference module.
use mathlib.Core.List.{Perm, flatten}
use mathlib.Core.List.Perm
use mould_system_backend.Common.{
  ℕ, ℤ, pos, negsuc, pos_part, Bool, true, false, none, some, Option-cases, List, [], ◌∷◌, ◌++◌,
  ◌+◌, ◌≤◌, ◌≡◌, ◌≢◌, ◌↔◌, ◌⊎◌, inl, inr, refl, arith, String, ltb_ℤ, str_eq, store_at, update, ltb,
  if◌then◌else◌,
}
use mould_system_backend.Restart.{RestartPolicyConfig, initial_state, evaluate, is_fused}
use mould_system_backend.Restart.Decisions.{failures_before}
use mould_system_backend.Supervisor.{
  Supervisor, SupervisorModuleSpec, initial_supervisor, fork_module_process, reap_child_process,
  has_child_process, child_pid_of,
}
use mould_system_backend.Supervisor.Startup.{
  duplicate_module, validate_single_module_per_process_invariant, validate_from, AllNamed,
  NoneTwice, priorities, build_initial_startup_batches, module_names, validate_iff, insert_priority,
  group_of, batches_from,
}
use mould_system_backend.Supervisor.Batches.{InBatches, Ascending, batches_complete}
use mould_system_backend.Supervisor.Processes.{IsMatched, fork-IsMatched, reap_frees}
use mould_system_backend.Supervisor.Monitor.{
  slept, restarted_module, closed_log_pipe, MonitorState, MonitorDeps, Round, continues, ExitStatus,
  signaled, child_exit, no_exit, act, monitor_round, run_monitor_loop,
}
use mould_system_backend.Supervisor.Exits.{judged_state, crash_is_judged}
use mould_system_backend.Supervisor.Loop.{
  IsInCharge, UsesMaster, fork, call, none_left, business_of, run-IsInCharge, run-continues,
}

abbrev camera : SupervisorModuleSpec
camera = record { module_name = "camera"; startup_priority = pos 10 }

abbrev infer : SupervisorModuleSpec
infer = record { module_name = "infer"; startup_priority = pos 20 }

abbrev log : SupervisorModuleSpec
log = record { module_name = "log"; startup_priority = negsuc 4 }

abbrev plan : List SupervisorModuleSpec
plan = camera ∷ infer ∷ log ∷ []

abbrev in_order : ℕ → List SupervisorModuleSpec → List SupervisorModuleSpec
in_order k batch = batch

plan_accepted : validate_single_module_per_process_invariant plan ≡ none
unfolding validate_single_module_per_process_invariant validate_from
plan_accepted = refl

twice_refused :
    validate_single_module_per_process_invariant (camera ∷ camera ∷ [])
    ≡ some (duplicate_module "camera")
unfolding validate_single_module_per_process_invariant validate_from
twice_refused = refl

log_first :
    (build_initial_startup_batches in_order plan initial_supervisor).0
    ≡ (log ∷ []) ∷ (camera ∷ []) ∷ (infer ∷ []) ∷ []
unfolding build_initial_startup_batches batches_from priorities insert_priority group_of
log_first = refl

validate_iff_example :
    (validate_single_module_per_process_invariant plan ≡ none) ↔ (AllNamed plan × NoneTwice plan)
validate_iff_example = validate_iff plan

batches_complete_example :
    Perm (flatten (build_initial_startup_batches in_order plan initial_supervisor).0) plan
    × InBatches (priorities plan) (build_initial_startup_batches in_order plan initial_supervisor).0
    × Ascending (priorities plan)
    × ((build_initial_startup_batches in_order plan
          initial_supervisor).1.observability.startup_order_trace
        ≡ []
          ++ module_names
              (flatten (build_initial_startup_batches in_order plan initial_supervisor).0))
batches_complete_example =
    batches_complete in_order plan initial_supervisor (λ k batch. Perm.refl batch)

-- The camera runs as process 41.
abbrev one_child : Supervisor
one_child = record initial_supervisor {
  module_to_pid = store_at initial_supervisor.module_to_pid "camera" (some 41);
  pid_to_module = update initial_supervisor.pid_to_module 41 (some "camera");
}

initial-IsMatched : IsMatched initial_supervisor
initial-IsMatched = record { forward = λ n p h. ground arith; backward = λ n p h. ground arith }

one_child-IsMatched : IsMatched one_child
unfolding fork_module_process has_child_process
one_child-IsMatched =
    let m = fork-IsMatched "camera" true (pos 41) initial_supervisor initial-IsMatched refl in
    record { forward = m.forward; backward = m.backward }

reap_frees_example :
    let t = (reap_child_process 41 one_child).1 in
    IsMatched t
    × (has_child_process "camera" t ≡ false)
    × ((other : String) → "camera" ≢ other → child_pid_of other t ≡ child_pid_of other one_child)
    × ((child : ℤ)
        → ltb_ℤ child (pos 0) ≡ false
        → str_eq "camera" "" ≡ false
        → child_pid_of "camera" (fork_module_process "camera" true child t).1
          ≡ some (pos_part child))
reap_frees_example = reap_frees 41 "camera" one_child one_child-IsMatched refl

abbrev settings : RestartPolicyConfig
settings = record {
  restart_backoff_ms = pos 100;
  restart_max_retries = pos 2;
  restart_window_ms = pos 10_000;
  restart_fuse_ms = pos 60_000;
}

-- Starts the module as process 77, unless that is taken.
abbrev start : String → MonitorState → Bool × MonitorState
start name st = elim (st.supervisor.pid_to_module 77) [
  | none ↦
      (true, record st { supervisor = (fork_module_process name true (pos 77) st.supervisor).1 })
  | some other ↦ (false, st)
]

abbrev deps : MonitorDeps
deps = record {
  module_entries = some (λ name. some settings);
  has_take_consumers_offline = true;
  restart_business_module = some start;
  has_log_module = false;
  restart_log_module = none;
  has_close_log_pipe = true;
  idle_sleep_duration = 50;
}

abbrev watching : MonitorState
watching = record { supervisor = one_child; log_module_pid = 0; actions = [] }

abbrev exit_of : ExitStatus → Round
exit_of status = record {
  shutdown_requested = false;
  wait_result = child_exit 41 status;
  shutdown_after_log_exit = false;
  now_ms = 1_000;
}

abbrev idle : Round
idle = record {
  shutdown_requested = false;
  wait_result = no_exit;
  shutdown_after_log_exit = false;
  now_ms = 900;
}

crash_is_judged_example :
    let policy = initial_state in
    let delay = pos_part (evaluate settings 1_000 policy).0.restart_delay_ms in
    let t = judged_state 1_000 41 "camera" settings watching in
    (has_child_process "camera" t.supervisor ≡ false)
    × (is_fused 1_000 policy ≡ false
        → failures_before settings 1_000 policy + 1 ≤ 2
        → monitor_round deps (exit_of (signaled 11)) watching ≡ (
          continues,
          (start "camera"
              (act (restarted_module "camera") (if ltb 0 delay then act (slept delay) t else t))).1,
        ))
    × (((is_fused 1_000 policy ≡ true) ⊎ (2 ≤ failures_before settings 1_000 policy))
        → monitor_round deps (exit_of (signaled 11)) watching
          ≡ (continues, act (closed_log_pipe "camera") t))
crash_is_judged_example =
    crash_is_judged deps (exit_of (signaled 11)) 41 (signaled 11) watching "camera" settings start
      refl refl refl refl refl refl refl refl refl one_child-IsMatched (omega arith)

start-UsesMaster : (name : String) → UsesMaster (business_of deps name)
start-UsesMaster name st = elim (Option-cases (st.supervisor.pid_to_module 77)) [
  | inl e ↦ rw (start, e) (call (fork name true (pos 77) st.supervisor e) (none_left _))
  | inr (other, e) ↦ rw (start, e) (none_left st.supervisor)
]

run-IsInCharge_example :
    IsInCharge (run_monitor_loop deps (idle ∷ exit_of (signaled 11) ∷ idle ∷ []) watching).1
run-IsInCharge_example =
    run-IsInCharge deps (idle ∷ exit_of (signaled 11) ∷ idle ∷ []) watching start-UsesMaster tt
      one_child-IsMatched

run-continues_example :
    (run_monitor_loop deps (idle ∷ exit_of (signaled 11) ∷ idle ∷ []) watching).0 ≡ continues
run-continues_example =
    run-continues deps (idle ∷ exit_of (signaled 11) ∷ idle ∷ []) watching refl
      (refl, (λ e. cc), (refl, (λ e. cc), (refl, (λ e. cc), tt)))
