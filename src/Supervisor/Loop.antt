-- ===== src/Supervisor/Loop.antt =====
-- The whole run of the monitor loop, over whatever `waitpid` reports and whatever is asked of it.
use mould_system_backend.Common.{
  ℕ, ℤ, pos_part, Bool, false, Option, none, some, Option-cases, List, [], ◌∷◌, ◌==◌, ◌&&◌, ◌≡◌,
  ◌≢◌, ◌⊎◌, ltb, if◌then◌else◌, String, inl, inr, refl, arith, Bool-cases, subst,
}
use mould_system_backend.Restart.{RestartPolicyConfig, RestartDecision}
use mould_system_backend.Supervisor.{
  Supervisor, reap_child_process, handle_abnormal_child_exit, transition_to_failed,
  fork_module_process, wait_for_ready_or_transition_failed, transition_to_initing,
  transition_to_ready, transition_to_running,
}
use mould_system_backend.Supervisor.Processes.{IsMatched, fork-IsMatched, reap-IsMatched}
use mould_system_backend.Supervisor.Monitor.{
  slept, MonitorState, MonitorDeps, Round, LoopOutcome, continues, stopped, left_loop, aborted,
  ExitStatus, child_exit, exited_cleanly, reap, carry_out, restart_settings, abnormal_exit,
  take_offline_of, log_module_exit, WaitResult, business_module_exit, monitor_round,
  run_monitor_loop, act, no_exit, interrupted, wait_error,
}

-- Each module has one process: the maps of the master are inverse to one another.
abbrev pub IsInCharge : MonitorState → Type 0
IsInCharge st = IsMatched st.supervisor

-- The calls by which common/comm/src/module_launcher.cpp, whose functions the callbacks run, changes the
-- master, and the other changes of a lifecycle. A fork that succeeds is given the process id of no managed child.
pub data MasterStep : Supervisor → Supervisor → Type 0 where
  fork :
      (name : String) (has_entrypoint : Bool) (child : ℤ) (s : Supervisor)
      → s.pid_to_module (pos_part child) ≡ none
      → MasterStep s (fork_module_process name has_entrypoint child s).1
  reap_child : (pid : ℕ) (s : Supervisor) → MasterStep s (reap_child_process pid s).1
  wait :
      (name : String) (answer : Option String) (s : Supervisor)
      → MasterStep s (wait_for_ready_or_transition_failed name answer s).1
  to_initing : (name : String) (s : Supervisor) → MasterStep s (transition_to_initing name s)
  to_running : (name : String) (s : Supervisor) → MasterStep s (transition_to_running name s)
  to_failed :
      (name reason : String) (s : Supervisor) → MasterStep s (transition_to_failed name reason s)

pub data MasterCalls : Supervisor → Supervisor → Type 0 where
  none_left : (s : Supervisor) → MasterCalls s s
  call : {s t u : Supervisor} → MasterStep s t → MasterCalls t u → MasterCalls s u

-- The callbacks that start processes change the master through its own calls only.
abbrev pub UsesMaster : Option (MonitorState → Bool × MonitorState) → Type 0
UsesMaster none = Unit {0}
UsesMaster (some restart) =
    (st : MonitorState) → MasterCalls st.supervisor (restart st).1.supervisor

wait-IsMatched :
    (name : String) (answer : Option String) (s : Supervisor)
    → IsMatched s
    → IsMatched (wait_for_ready_or_transition_failed name answer s).1
unfolding wait_for_ready_or_transition_failed transition_to_ready transition_to_failed
wait-IsMatched name none s v = record { forward = v.forward; backward = v.backward }
wait-IsMatched name (some error) s v = record { forward = v.forward; backward = v.backward }

MasterStep-IsMatched : {s t : Supervisor} → MasterStep s t → IsMatched s → IsMatched t
unfolding transition_to_initing transition_to_running transition_to_failed
MasterStep-IsMatched (fork name has_entrypoint child s fresh) v =
    fork-IsMatched name has_entrypoint child s v fresh
MasterStep-IsMatched (reap_child pid s) v = reap-IsMatched pid s v
MasterStep-IsMatched (wait name answer s) v = wait-IsMatched name answer s v
MasterStep-IsMatched (to_initing name s) v = record { forward = v.forward; backward = v.backward }
MasterStep-IsMatched (to_running name s) v = record { forward = v.forward; backward = v.backward }
MasterStep-IsMatched (to_failed name reason s) v = record {
  forward = v.forward;
  backward = v.backward;
}

MasterCalls-IsMatched : {s t : Supervisor} → MasterCalls s t → IsMatched s → IsMatched t
MasterCalls-IsMatched (none_left s) v = v
MasterCalls-IsMatched (call st rest) v = MasterCalls-IsMatched rest (MasterStep-IsMatched st v)

abbrev pub business_of : MonitorDeps → String → Option (MonitorState → Bool × MonitorState)
business_of deps name = elim deps.restart_business_module [
  | none ↦ none
  | some restart ↦ some (restart name)
]

reap-IsInCharge : (pid : ℕ) (st : MonitorState) → IsInCharge st → IsInCharge (reap pid st)
unfolding reap
reap-IsInCharge pid st h = reap-IsMatched pid st.supervisor h

take_offline_of-supervisor :
    (deps : MonitorDeps) (pid : ℕ) (st : MonitorState)
    → (take_offline_of deps pid st).supervisor ≡ st.supervisor
take_offline_of-supervisor deps pid st = ground arith

abnormal-IsInCharge :
    (name : String) (config : RestartPolicyConfig) (now : ℕ) (st : MonitorState)
    → IsInCharge st
    → IsInCharge
        (record st { supervisor = (handle_abnormal_child_exit name config now st.supervisor).1 })
unfolding handle_abnormal_child_exit transition_to_failed
abnormal-IsInCharge name config now st h = record { forward = h.forward; backward = h.backward }

waited-IsInCharge :
    (delay : ℕ) (st : MonitorState)
    → IsInCharge st
    → IsInCharge (if ltb 0 delay then act (slept delay) st else st)
waited-IsInCharge delay st h = elim (Bool-cases (ltb 0 delay)) [ inl e ↦ rw e h | inr e ↦ rw e h ]

carry_out-IsInCharge :
    (deps : MonitorDeps) (name : String) (d : RestartDecision) (st : MonitorState)
    → UsesMaster (business_of deps name)
    → IsInCharge st
    → IsInCharge (carry_out deps name d st)
unfolding carry_out
carry_out-IsInCharge deps name d st keeps h = elim (Bool-cases d.should_restart) [
  | inl e ↦ elim (Option-cases deps.restart_business_module) [
    | inl f ↦ rw (carry_out, e, f) (waited-IsInCharge (pos_part d.restart_delay_ms) st h)
    | inr (restart, f) ↦
        let same : business_of deps name ≡ some (restart name) = rw f refl in
        let keeps' : UsesMaster (some (restart name)) = subst UsesMaster same keeps in
        rw (carry_out, e, f)
          (MasterCalls-IsMatched (keeps' _) (waited-IsInCharge (pos_part d.restart_delay_ms) st h))
  ]
  | inr e ↦ elim (Bool-cases (d.fuse_open && deps.has_close_log_pipe)) [
    | inl f ↦ rw (carry_out, e, f) h
    | inr f ↦ rw (carry_out, e, f) h
  ]
]

abnormal_exit-IsInCharge :
    (deps : MonitorDeps) (now : ℕ) (name : String) (st : MonitorState)
    → UsesMaster (business_of deps name)
    → IsInCharge st
    → IsInCharge (abnormal_exit deps now name st)
unfolding abnormal_exit
abnormal_exit-IsInCharge deps now name st keeps h =
    elim (Option-cases (restart_settings deps name)) [
      | inl e ↦ rw (abnormal_exit, e) h
      | inr (config, e) ↦
          rw (abnormal_exit, e)
            (carry_out-IsInCharge deps name
              (handle_abnormal_child_exit name config now st.supervisor).0 _ keeps
              (abnormal-IsInCharge name config now st h))
    ]

business-IsInCharge :
    (deps : MonitorDeps) (round : Round) (pid : ℕ) (status : ExitStatus) (name : String)
    (st : MonitorState)
    → UsesMaster (business_of deps name)
    → IsInCharge st
    → IsInCharge (business_module_exit deps round pid status name st)
unfolding business_module_exit
business-IsInCharge deps round pid status name st keeps h =
    let offline : IsInCharge (take_offline_of deps pid st) =
      rw (take_offline_of-supervisor deps pid st) h in
    let gone = reap-IsInCharge pid (take_offline_of deps pid st) offline in
    elim (Bool-cases (exited_cleanly status)) [
      | inl e ↦ rw (business_module_exit, e) gone
      | inr e ↦
          rw (business_module_exit, e)
            (abnormal_exit-IsInCharge deps round.now_ms name _ keeps gone)
    ]

log-IsInCharge :
    (deps : MonitorDeps) (round : Round) (pid : ℕ) (st : MonitorState)
    → UsesMaster deps.restart_log_module
    → IsInCharge st
    → IsInCharge (log_module_exit deps round pid st).1
unfolding log_module_exit
log-IsInCharge deps round pid st keeps h =
    let gone = reap-IsInCharge pid st h in
    elim (Option-cases deps.restart_log_module) [
      | inl e ↦ rw (log_module_exit, e) gone
      | inr (restart, e) ↦ elim (Bool-cases round.shutdown_after_log_exit) [
        | inl f ↦ rw (log_module_exit, e, f) gone
        | inr f ↦
            rw (log_module_exit, e, f) (MasterCalls-IsMatched (subst UsesMaster e keeps _) gone)
      ]
    ]

child-IsInCharge :
    (deps : MonitorDeps) (round : Round) (pid : ℕ) (status : ExitStatus) (st : MonitorState)
    → round.shutdown_requested ≡ false
    → round.wait_result ≡ child_exit pid status
    → ((name : String) → UsesMaster (business_of deps name))
    → UsesMaster deps.restart_log_module
    → IsInCharge st
    → IsInCharge (monitor_round deps round st).1
unfolding monitor_round
child-IsInCharge deps round pid status st running e keeps log_keeps h =
    elim (Bool-cases (deps.has_log_module && pid == st.log_module_pid)) [
      | inl l ↦ rw (monitor_round, running, e, l) (log-IsInCharge deps round pid st log_keeps h)
      | inr l ↦ elim (Option-cases (st.supervisor.pid_to_module pid)) [
        | inl k ↦ rw (monitor_round, running, e, l, k) h
        | inr (name, k) ↦
            rw (monitor_round, running, e, l, k)
              (business-IsInCharge deps round pid status name st (keeps name) h)
      ]
    ]

round-IsInCharge :
    (deps : MonitorDeps) (round : Round) (w : WaitResult) (st : MonitorState)
    → round.wait_result ≡ w
    → round.shutdown_requested ≡ false
    → ((name : String) → UsesMaster (business_of deps name))
    → UsesMaster deps.restart_log_module
    → IsInCharge st
    → IsInCharge (monitor_round deps round st).1
unfolding monitor_round
round-IsInCharge deps round no_exit st e running keeps log_keeps h =
    rw (monitor_round, running, e) h
round-IsInCharge deps round interrupted st e running keeps log_keeps h =
    rw (monitor_round, running, e) h
round-IsInCharge deps round wait_error st e running keeps log_keeps h =
    rw (monitor_round, running, e) h
round-IsInCharge deps round (child_exit pid status) st e running keeps log_keeps h =
    child-IsInCharge deps round pid status st running e keeps log_keeps h

any_round-IsInCharge :
    (deps : MonitorDeps) (round : Round) (st : MonitorState)
    → ((name : String) → UsesMaster (business_of deps name))
    → UsesMaster deps.restart_log_module
    → IsInCharge st
    → IsInCharge (monitor_round deps round st).1
unfolding monitor_round
any_round-IsInCharge deps round st keeps log_keeps h = elim (Bool-cases round.shutdown_requested) [
  | inl e ↦ rw (monitor_round, e) h
  | inr e ↦ round-IsInCharge deps round round.wait_result st refl e keeps log_keeps h
]

LoopOutcome-cases :
    (o : LoopOutcome) → (o ≡ continues) ⊎ ((o ≡ stopped) ⊎ ((o ≡ left_loop) ⊎ (o ≡ aborted)))
LoopOutcome-cases continues = inl refl
LoopOutcome-cases stopped = inr (inl refl)
LoopOutcome-cases left_loop = inr (inr (inl refl))
LoopOutcome-cases aborted = inr (inr (inr refl))

-- Whatever the rounds of the monitor loop report, in whatever order, the two maps of the master stay
-- inverse to one another, so that a module never has two processes, when the callbacks that start
-- processes change the master through its own calls only and a fork is given the process id of no
-- managed child.
pub run-IsInCharge :
    (deps : MonitorDeps) (rounds : List Round) (st : MonitorState)
    → ((name : String) → UsesMaster (business_of deps name))
    → UsesMaster deps.restart_log_module
    → IsInCharge st
    → IsInCharge (run_monitor_loop deps rounds st).1
unfolding run_monitor_loop
run-IsInCharge deps [] st keeps log_keeps h = h
run-IsInCharge deps (round ∷ rounds) st keeps log_keeps h =
    let next = any_round-IsInCharge deps round st keeps log_keeps h in
    elim (LoopOutcome-cases (monitor_round deps round st).0) [
      | inl e ↦
          rw (run_monitor_loop, e)
            (run-IsInCharge deps rounds (monitor_round deps round st).1 keeps log_keeps next)
      | inr (inl e) ↦ rw (run_monitor_loop, e) next
      | inr (inr (inl e)) ↦ rw (run_monitor_loop, e) next
      | inr (inr (inr e)) ↦ rw (run_monitor_loop, e) next
    ]

-- No shutdown is requested and `waitpid` does not fail.
abbrev pub IsCalm : List Round → Type 0
IsCalm [] = Unit {0}
IsCalm (round ∷ rounds) =
    (round.shutdown_requested ≡ false) × (round.wait_result ≢ wait_error) × IsCalm rounds

round-continues :
    (deps : MonitorDeps) (round : Round) (w : WaitResult) (st : MonitorState)
    → round.wait_result ≡ w
    → w ≢ wait_error
    → round.shutdown_requested ≡ false
    → deps.has_log_module ≡ false
    → (monitor_round deps round st).0 ≡ continues
unfolding monitor_round
round-continues deps round no_exit st e ok running no_log = rw (monitor_round, running, e) refl
round-continues deps round interrupted st e ok running no_log = rw (monitor_round, running, e) refl
round-continues deps round wait_error st e ok running no_log = absurd (ok refl)
round-continues deps round (child_exit pid status) st e ok running no_log =
    elim (Option-cases (st.supervisor.pid_to_module pid)) [
      | inl k ↦ rw (monitor_round, running, e, k, no_log) refl
      | inr (name, k) ↦ rw (monitor_round, running, e, k, no_log) refl
    ]

-- Without a log module, no exit of a child ends the loop: only a shutdown request or an error of
-- `waitpid` does.
pub run-continues :
    (deps : MonitorDeps) (rounds : List Round) (st : MonitorState)
    → deps.has_log_module ≡ false
    → IsCalm rounds
    → (run_monitor_loop deps rounds st).0 ≡ continues
unfolding run_monitor_loop
run-continues deps [] st no_log calm = refl
run-continues deps (round ∷ rounds) st no_log calm =
    let on = round-continues deps round round.wait_result st refl calm.1 calm.0 no_log in
    rw (run_monitor_loop, on)
      (run-continues deps rounds (monitor_round deps round st).1 no_log calm.2)
