-- ===== src/Supervisor/Exits.antt =====
-- What a child's exit leads to: only a crash that the policy forgives starts the module again.
use mould_system_backend.Common.{
  ℕ, Bool, true, false, some, [], ◌∷◌, ◌++◌, ◌+◌, ◌==◌, ◌&&◌, ◌≡◌, ◌⊎◌, ◌≤◌, ltb, if◌then◌else◌,
  String, refl, ap, ◌∙◌, arith, pos_part,
}
use mould_system_backend.Restart.{
  RestartPolicyConfig, RestartDecision, evaluate, evaluate_abnormal_exit, is_fused,
}
use mould_system_backend.Restart.Window.{Rising}
use mould_system_backend.Restart.Decisions.{restart_iff, failures_before}
use mould_system_backend.Supervisor.{
  Supervisor, reap_child_process, handle_abnormal_child_exit, has_child_process,
  transition_to_failed,
}
use mould_system_backend.Supervisor.Processes.{IsMatched, reap_frees}
use mould_system_backend.Supervisor.Monitor.{
  slept, took_consumers_offline, reaped, restarted_module, closed_log_pipe, MonitorState,
  MonitorDeps, Round, continues, ExitStatus, child_exit, exited_cleanly, reap, carry_out,
  restart_settings, abnormal_exit, business_module_exit, monitor_round, act,
}

-- The state in which the policy has judged the crash.
abbrev pub judged : ℕ → ℕ → String → RestartPolicyConfig → MonitorState → Supervisor
judged now pid name config st =
    (handle_abnormal_child_exit name config now (reap_child_process pid st.supervisor).1).1

abnormal_exit_lem :
    (deps : MonitorDeps) (now : ℕ) (name : String) (config : RestartPolicyConfig)
    (st : MonitorState)
    → restart_settings deps name ≡ some config
    → abnormal_exit deps now name st
      ≡ carry_out deps name
          (handle_abnormal_child_exit name config now st.supervisor).0
          (record st { supervisor = (handle_abnormal_child_exit name config now st.supervisor).1 })
unfolding abnormal_exit
abnormal_exit_lem deps now name config st found = rw (found, abnormal_exit) refl

round-crash :
    (deps : MonitorDeps) (round : Round) (pid : ℕ) (status : ExitStatus) (st : MonitorState)
    (name : String) (config : RestartPolicyConfig)
    → round.shutdown_requested ≡ false
    → round.wait_result ≡ child_exit pid status
    → deps.has_log_module && pid == st.log_module_pid ≡ false
    → deps.has_take_consumers_offline ≡ true
    → st.supervisor.pid_to_module pid ≡ some name
    → exited_cleanly status ≡ false
    → restart_settings deps name ≡ some config
    → monitor_round deps round st ≡ (
      continues,
      carry_out deps name
          (handle_abnormal_child_exit name config round.now_ms
            (reap_child_process pid st.supervisor).1).0
          (record st {
            supervisor = judged round.now_ms pid name config st;
            actions = (st.actions ++ took_consumers_offline pid ∷ []) ++ reaped pid ∷ [];
          }),
    )
unfolding monitor_round business_module_exit reap
round-crash deps round pid status st name config running e not_log set known crash found =
    let gone : MonitorState = record st {
      supervisor = (reap_child_process pid st.supervisor).1;
      actions = (st.actions ++ took_consumers_offline pid ∷ []) ++ reaped pid ∷ [];
    } in
    let abnormal : monitor_round deps round st
        ≡ (continues, abnormal_exit deps round.now_ms name gone) =
      rw (running, e, not_log, known, crash, set) refl in
    abnormal
    ∙ ap (λ (t : MonitorState). (continues, t))
        (abnormal_exit_lem deps round.now_ms name config gone found)

reap-restart_policy :
    (pid : ℕ) (s : Supervisor) → (reap_child_process pid s).1.restart_policy ≡ s.restart_policy
unfolding reap_child_process
reap-restart_policy pid s = ground arith

decision_of_crash :
    (name : String) (config : RestartPolicyConfig) (now pid : ℕ) (st : MonitorState)
    → (handle_abnormal_child_exit name config now (reap_child_process pid st.supervisor).1).0
      ≡ (evaluate config now (st.supervisor.restart_policy name)).0
unfolding handle_abnormal_child_exit evaluate_abnormal_exit transition_to_failed
decision_of_crash name config now pid st = rw (reap-restart_policy pid st.supervisor) refl

carry_out-cases :
    (deps : MonitorDeps) (name : String) (d : RestartDecision) (st : MonitorState)
    (restart : String → MonitorState → Bool × MonitorState)
    → deps.restart_business_module ≡ some restart
    → deps.has_close_log_pipe ≡ true
    → (d.should_restart ≡ true
        → carry_out deps name d st
          ≡ (restart name (
              act (restarted_module name) (
                if ltb 0 (pos_part d.restart_delay_ms)
                then act (slept (pos_part d.restart_delay_ms)) st
                else st))).1)
      × (d.should_restart ≡ false
          → d.fuse_open ≡ true
          → carry_out deps name d st ≡ act (closed_log_pipe name) st)
unfolding carry_out
carry_out-cases deps name d st restart set closes = (
  λ yes_restart. rw (yes_restart, set) refl,
  λ no_restart fused. rw (no_restart, fused, closes) refl,
)

judged-maps :
    (now pid : ℕ) (name : String) (config : RestartPolicyConfig) (st : MonitorState)
    → ((judged now pid name config st).module_to_pid
        ≡ (reap_child_process pid st.supervisor).1.module_to_pid)
      × ((judged now pid name config st).pid_to_module
          ≡ (reap_child_process pid st.supervisor).1.pid_to_module)
unfolding handle_abnormal_child_exit transition_to_failed
judged-maps now pid name config st = (refl, refl)

judged-free :
    (now pid : ℕ) (name : String) (config : RestartPolicyConfig) (st : MonitorState)
    → IsMatched st.supervisor
    → st.supervisor.pid_to_module pid ≡ some name
    → has_child_process name (judged now pid name config st) ≡ false
unfolding has_child_process
judged-free now pid name config st v known =
    rw ((judged-maps now pid name config st).0) ((reap_frees pid name st.supervisor v known).1)

-- The state of the loop after the crash has been judged, before the decision is carried out.
abbrev pub judged_state : ℕ → ℕ → String → RestartPolicyConfig → MonitorState → MonitorState
judged_state now pid name config st = record st {
  supervisor = judged now pid name config st;
  actions = (st.actions ++ took_consumers_offline pid ∷ []) ++ reaped pid ∷ [];
}

-- A managed module that crashes has its consumers taken offline, is reaped, and has no process any
-- more when it is judged. It is then started again, after the delay of the policy, exactly when its
-- fuse is closed and its failures in the window do not exceed the setting; otherwise only its log
-- pipe is closed. The loop goes on in both cases.
pub crash_is_judged :
    (deps : MonitorDeps) (round : Round) (pid : ℕ) (status : ExitStatus) (st : MonitorState)
    (name : String) (config : RestartPolicyConfig)
    (restart : String → MonitorState → Bool × MonitorState)
    → round.shutdown_requested ≡ false
    → round.wait_result ≡ child_exit pid status
    → deps.has_log_module && pid == st.log_module_pid ≡ false
    → deps.has_take_consumers_offline ≡ true
    → st.supervisor.pid_to_module pid ≡ some name
    → exited_cleanly status ≡ false
    → restart_settings deps name ≡ some config
    → deps.restart_business_module ≡ some restart
    → deps.has_close_log_pipe ≡ true
    → IsMatched st.supervisor
    → Rising 0 (st.supervisor.restart_policy name).failure_timestamps_ms round.now_ms
    → let policy = st.supervisor.restart_policy name in
      let now = round.now_ms in
      let delay = pos_part (evaluate config now policy).0.restart_delay_ms in
      let t = judged_state now pid name config st in
      (has_child_process name t.supervisor ≡ false)
      × (is_fused now policy ≡ false
          → failures_before config now policy + 1 ≤ pos_part config.restart_max_retries
          → monitor_round deps round st ≡ (
            continues,
            (restart name
                (act (restarted_module name) (if ltb 0 delay then act (slept delay) t else t))).1,
          ))
      × (((is_fused now policy ≡ true)
            ⊎ (pos_part config.restart_max_retries ≤ failures_before config now policy))
          → monitor_round deps round st ≡ (continues, act (closed_log_pipe name) t))
crash_is_judged deps round pid status st name config restart running e not_log set known crash found
      starts closes v rising =
    let policy = st.supervisor.restart_policy name in
    let now = round.now_ms in
    let t = judged_state now pid name config st in
    let d = (evaluate config now policy).0 in
    let same : (handle_abnormal_child_exit name config now
          (reap_child_process pid st.supervisor).1).0
        ≡ d =
      decision_of_crash name config now pid st in
    let round_lem : monitor_round deps round st ≡ (continues, carry_out deps name d t) =
      round-crash deps round pid status st name config running e not_log set known crash found
      ∙ ap (λ (x : RestartDecision). (continues, carry_out deps name x t)) same in
    let granted = restart_iff config now policy rising in
    let cases = carry_out-cases deps name d t restart starts closes in
    (
      judged-free now pid name config st v known,
      λ closed few.
          round_lem
          ∙ ap (λ (x : MonitorState). (continues, x)) (cases.0 (granted.0.1 (closed, few))),
      λ refused.
          let no_restart : d.should_restart ≡ false = ground (arith, granted.0, refused) in
          round_lem
          ∙ ap (λ (x : MonitorState). (continues, x)) (cases.1 no_restart (granted.1.1 no_restart)),
    )
