-- ===== src/Supervisor/Processes.antt =====
-- The two maps between modules and processes stay inverse to one another: one process for a module.
use mould_system_backend.Common.{
  ℕ, ℤ, pos, pos_part, ltb_ℤ, Bool, true, false, Option, none, some, List, [], ◌∷◌, ◌≡◌, ◌≢◌, ◌⊎◌,
  inl, inr, refl, arith, String, eq_iff, eq_refl, Option-cases, str_eq,
}
use mould_system_backend.Supervisor.{
  Supervisor, forget, fork_module_process, reap_child_process, has_child_process, child_pid_of,
  is_settled, wait_for_ready_or_transition_failed, can_release_next_priority_batch, lifecycle_of,
}

pub record IsMatched (s : Supervisor) : Type 0 where
  pub forward :
      (name : String) (pid : ℕ) → s.module_to_pid name ≡ some pid → s.pid_to_module pid ≡ some name
  pub backward :
      (name : String) (pid : ℕ) → s.pid_to_module pid ≡ some name → s.module_to_pid name ≡ some pid

-- A fork that succeeds keeps the maps matched, when the system hands out a process id that no
-- managed child has; a fork that fails changes nothing.
pub fork-IsMatched :
    (name : String) (has_entrypoint : Bool) (child : ℤ) (s : Supervisor)
    → IsMatched s
    → s.pid_to_module (pos_part child) ≡ none
    → IsMatched (fork_module_process name has_entrypoint child s).1
unfolding fork_module_process
fork-IsMatched name has_entrypoint child s v fresh = record {
  forward = λ n p h. ground (arith, v.forward n p, v.forward n (pos_part child), eq_iff name n, h);
  backward = λ n p h. ground (arith, v.backward n p, eq_iff name n, h, v.forward name p);
}

reap-managed :
    (pid : ℕ) (name : String) (s : Supervisor)
    → s.pid_to_module pid ≡ some name
    → reap_child_process pid s ≡ (true, forget name pid s)
unfolding reap_child_process
reap-managed pid name s e = rw (e, reap_child_process)

reap-unmanaged :
    (pid : ℕ) (s : Supervisor) → s.pid_to_module pid ≡ none → reap_child_process pid s ≡ (false, s)
unfolding reap_child_process
reap-unmanaged pid s e = rw (e, reap_child_process)

forget-IsMatched :
    (pid : ℕ) (name : String) (s : Supervisor)
    → IsMatched s
    → s.pid_to_module pid ≡ some name
    → IsMatched (forget name pid s)
forget-IsMatched pid name s v e = record {
  forward = λ n p h.
      ground (arith, v.forward n p, v.backward name pid e, v.forward n pid, eq_iff name n, h);
  backward = λ n p h. ground (arith, v.backward n p, v.backward name pid e, eq_iff name n, h);
}

pub reap-IsMatched :
    (pid : ℕ) (s : Supervisor) → IsMatched s → IsMatched (reap_child_process pid s).1
reap-IsMatched pid s v = elim (Option-cases (s.pid_to_module pid)) [
  | inl e ↦ rw (reap-unmanaged pid s e) v
  | inr (name, e) ↦ rw (reap-managed pid name s e) (forget-IsMatched pid name s v e)
]

has_child-forget :
    (pid : ℕ) (name : String) (s : Supervisor)
    → s.module_to_pid name ≡ some pid
    → has_child_process name (forget name pid s) ≡ false
unfolding has_child_process
has_child-forget pid name s e = ground (arith, eq_refl name)

child_pid_of-forget :
    (pid : ℕ) (name other : String) (s : Supervisor)
    → name ≢ other
    → child_pid_of other (forget name pid s) ≡ child_pid_of other s
unfolding child_pid_of
child_pid_of-forget pid name other s ne = ground (arith, eq_iff name other)

fork-forgotten :
    (pid : ℕ) (name : String) (s : Supervisor) (child : ℤ)
    → s.module_to_pid name ≡ some pid
    → ltb_ℤ child (pos 0) ≡ false
    → str_eq name "" ≡ false
    → child_pid_of name (fork_module_process name true child (forget name pid s)).1
      ≡ some (pos_part child)
unfolding child_pid_of fork_module_process
fork-forgotten pid name s child e ok named = ground (arith, eq_refl name)

-- Reaping a managed child frees its module, and no other: the module has no process afterwards and
-- can be forked again, and every other module keeps the process that it had.
pub reap_frees :
    (pid : ℕ) (name : String) (s : Supervisor)
    → IsMatched s
    → s.pid_to_module pid ≡ some name
    → let t = (reap_child_process pid s).1 in
      IsMatched t
      × (has_child_process name t ≡ false)
      × ((other : String) → name ≢ other → child_pid_of other t ≡ child_pid_of other s)
      × ((child : ℤ)
          → ltb_ℤ child (pos 0) ≡ false
          → str_eq name "" ≡ false
          → child_pid_of name (fork_module_process name true child t).1 ≡ some (pos_part child))
reap_frees pid name s v e = rw (reap-managed pid name s e) (
  forget-IsMatched pid name s v e,
  has_child-forget pid name s (v.backward name pid e),
  λ other ne. child_pid_of-forget pid name other s ne,
  λ child ok named. fork-forgotten pid name s child (v.backward name pid e) ok named,
)

-- Each module that has been waited for is ready or failed, whatever the others answered.
pub wait_all : List (String × Option String) → Supervisor → Supervisor
wait_all [] s = s
wait_all ((name, answer) ∷ rest) s =
    wait_all rest (wait_for_ready_or_transition_failed name answer s).1

abbrev pub names_of : List (String × Option String) → List String
names_of [] = []
names_of ((name, answer) ∷ rest) = name ∷ names_of rest

wait-settles :
    (name other : String) (answer : Option String) (s : Supervisor)
    → ((str_eq name other ≡ true) ⊎ (is_settled (lifecycle_of other s) ≡ true))
    → is_settled (lifecycle_of other (wait_for_ready_or_transition_failed name answer s).1) ≡ true
unfolding wait_for_ready_or_transition_failed lifecycle_of
wait-settles name other none s h = ground arith
wait-settles name other (some error) s h = ground arith

wait_all-keeps :
    (answers : List (String × Option String)) (other : String) (s : Supervisor)
    → is_settled (lifecycle_of other s) ≡ true
    → is_settled (lifecycle_of other (wait_all answers s)) ≡ true
unfolding wait_all
wait_all-keeps [] other s h = h
wait_all-keeps ((name, answer) ∷ rest) other s h =
    wait_all-keeps rest other (wait_for_ready_or_transition_failed name answer s).1
      (wait-settles name other answer s (inr h))

-- The next batch is released once every module of the present one has been waited for, whether it
-- became ready or failed.
pub can_release-wait_all :
    (answers : List (String × Option String)) (s : Supervisor)
    → can_release_next_priority_batch (names_of answers) (wait_all answers s) ≡ true
unfolding can_release_next_priority_batch wait_all
can_release-wait_all [] s = refl
can_release-wait_all ((name, answer) ∷ rest) s =
    let t = (wait_for_ready_or_transition_failed name answer s).1 in
    ground (
      arith,
      wait_all-keeps rest name t (wait-settles name name answer s (inl (eq_refl name))),
      can_release-wait_all rest t,
    )
