-- ===== src/Supervisor/Monitor.antt =====
-- `Supervisor::RunMonitorLoop`: what the master does when a child process ends.
use mould_system_backend.Common.{
  ℕ, Bool, false, Option, none, some, List, [], ◌∷◌, ◌++◌, ◌==◌, ◌&&◌, ltb, pos_part, if◌then◌else◌,
  String, NameMap,
}
use mould_system_backend.Restart.{RestartPolicyConfig, RestartDecision}
use mould_system_backend.Supervisor.{Supervisor, reap_child_process, handle_abnormal_child_exit}

-- What `WIFEXITED`, `WEXITSTATUS` and `WTERMSIG` tell of a status.
pub data ExitStatus : Type 0 where
  exited : ℕ → ExitStatus
  signaled : ℕ → ExitStatus

-- The answers of `waitpid(-1, &status, WNOHANG)`: no child has ended, EINTR, another error, a child.
pub data WaitResult : Type 0 where
  no_exit interrupted wait_error : WaitResult
  child_exit : ℕ → ExitStatus → WaitResult

-- What the loop does to the outside, in the order in which it happens.
pub data MonitorAction : Type 0 where
  slept : ℕ → MonitorAction
  took_consumers_offline : ℕ → MonitorAction
  reaped : ℕ → MonitorAction
  restarted_module : String → MonitorAction
  restarted_log_module : MonitorAction
  closed_log_pipe : String → MonitorAction

pub record MonitorState : Type 0 where
  pub supervisor : Supervisor
  pub log_module_pid : ℕ
  pub actions : List MonitorAction

-- A callback that is not set is `none`, or false where only its call is seen. The callbacks that
-- start a process work on the state of the master. `has_log_module`
-- includes that the process id of that module is given. `module_entries` has the restart settings.
pub record MonitorDeps : Type 0 where
  pub module_entries : Option (NameMap (Option RestartPolicyConfig))
  pub has_take_consumers_offline : Bool
  pub restart_business_module : Option (String → MonitorState → Bool × MonitorState)
  pub has_log_module : Bool
  pub restart_log_module : Option (MonitorState → Bool × MonitorState)
  pub has_close_log_pipe : Bool
  pub idle_sleep_duration : ℕ

-- What one round of the loop sees of the outside: the shutdown flag at its two loads, the answer of
-- `waitpid`, and the steady clock.
pub record Round : Type 0 where
  pub shutdown_requested : Bool
  pub wait_result : WaitResult
  pub shutdown_after_log_exit : Bool
  pub now_ms : ℕ

-- `aborted` is the end of the process by LOG(FATAL).
pub data LoopOutcome : Type 0 where
  continues stopped left_loop aborted : LoopOutcome

abbrev pub act : MonitorAction → MonitorState → MonitorState
act a st = record st { actions = st.actions ++ a ∷ [] }

unfoldable pub reap : ℕ → MonitorState → MonitorState
reap pid st = record st {
  supervisor = (reap_child_process pid st.supervisor).1;
  actions = st.actions ++ reaped pid ∷ [];
}

abbrev pub aborted_unless : Bool × MonitorState → LoopOutcome × MonitorState
aborted_unless (ok, st) = (if ok then continues else aborted, st)

unfoldable pub log_module_exit : MonitorDeps → Round → ℕ → MonitorState → LoopOutcome × MonitorState
unfolding reap
log_module_exit deps round pid st =
    let reaped_st = reap pid st in
    elim deps.restart_log_module [
      | none ↦ (continues, reaped_st)
      | some restart ↦
          if round.shutdown_after_log_exit
          then (continues, reaped_st)
          else aborted_unless (restart (act restarted_log_module reaped_st))
    ]

abbrev pub exited_cleanly : ExitStatus → Bool
exited_cleanly (exited code) = code == 0
exited_cleanly (signaled signal) = false

-- `sleep_for` of the delay, when that is above zero; then the restart. Without one, the pipe to the log
-- is closed when the fuse is open.
unfoldable pub carry_out : MonitorDeps → String → RestartDecision → MonitorState → MonitorState
carry_out deps name decision st =
    if decision.should_restart
    then (let waited =
          (if ltb 0 (pos_part decision.restart_delay_ms)
            then act (slept (pos_part decision.restart_delay_ms)) st
            else st) in
        elim deps.restart_business_module [
          | none ↦ waited
          | some restart ↦ (restart name (act (restarted_module name) waited)).1
        ])
    else if decision.fuse_open && deps.has_close_log_pipe
    then act (closed_log_pipe name) st
    else st

abbrev pub restart_settings : MonitorDeps → String → Option RestartPolicyConfig
restart_settings deps name = elim deps.module_entries [ none ↦ none | some entries ↦ entries name ]

unfoldable pub abnormal_exit : MonitorDeps → ℕ → String → MonitorState → MonitorState
unfolding carry_out
abnormal_exit deps now name st = elim (restart_settings deps name) [
  | none ↦ st
  | some config ↦
      let (decision, s) = handle_abnormal_child_exit name config now st.supervisor in
      carry_out deps name decision (record st { supervisor = s })
]

abbrev pub take_offline_of : MonitorDeps → ℕ → MonitorState → MonitorState
take_offline_of deps pid st =
    if deps.has_take_consumers_offline then act (took_consumers_offline pid) st else st

unfoldable pub business_module_exit :
    MonitorDeps → Round → ℕ → ExitStatus → String → MonitorState → MonitorState
unfolding reap abnormal_exit
business_module_exit deps round pid status name st =
    let gone = reap pid (take_offline_of deps pid st) in
    if exited_cleanly status then gone else abnormal_exit deps round.now_ms name gone

unfoldable pub monitor_round : MonitorDeps → Round → MonitorState → LoopOutcome × MonitorState
unfolding log_module_exit business_module_exit
monitor_round deps round st =
    if round.shutdown_requested then (stopped, st) else elim round.wait_result [
      | no_exit ↦ (continues, act (slept deps.idle_sleep_duration) st)
      | interrupted ↦ (continues, st)
      | wait_error ↦ (left_loop, st)
      | child_exit pid status ↦
          if deps.has_log_module && pid == st.log_module_pid
          then log_module_exit deps round pid st
          else elim (st.supervisor.pid_to_module pid) [
            | none ↦ (continues, st)
            | some name ↦ (continues, business_module_exit deps round pid status name st)
          ]
    ]

-- The loop on what its rounds see of the outside.
unfoldable pub run_monitor_loop :
    MonitorDeps → List Round → MonitorState → LoopOutcome × MonitorState
unfolding monitor_round
run_monitor_loop deps [] st = (continues, st)
run_monitor_loop deps (round ∷ rounds) st =
    let (outcome, next) = monitor_round deps round st in
    elim outcome [ continues ↦ run_monitor_loop deps rounds next | other ↦ (other, next) ]
