-- ===== src/Restart/History.antt =====
-- A history of failures of one module: in no window are more restarts granted than the setting says.
use mould_system_backend.Common.{
  ℕ, pos_part, true, false, List, [], ◌∷◌, ◌++◌, ◌+◌, ◌≤◌, ◌≡◌, ◌⊎◌, inl, inr, refl, ap, ◌∙◌, arith,
  if◌then◌else◌,
}
use mould_system_backend.Restart.{
  RestartPolicyConfig, ModulePolicyState, initial_state, drop_old, recent, evaluate,
}
use mould_system_backend.Restart.Window.{Rising, Rising-later, count_recent, recent-Rising}
use mould_system_backend.Restart.Decisions.{restart_iff}

-- The granted restarts after one more decision.
abbrev pub granted : RestartPolicyConfig → ℕ → ModulePolicyState → List ℕ → List ℕ
granted config now s g = if (evaluate config now s).0.should_restart then g ++ now ∷ [] else g

-- Each restart that is granted at a time is, with the restarts granted before it in its window, no
-- more than the configured number.
abbrev pub AtMostRetries : RestartPolicyConfig → List ℕ → ModulePolicyState → List ℕ → Type 0
AtMostRetries config [] s g = Unit {0}
AtMostRetries config (now ∷ ts) s g =
    ((evaluate config now s).0.should_restart ≡ true
      → count_recent (pos_part config.restart_window_ms) now (g ++ now ∷ [])
        ≤ pos_part config.restart_max_retries)
    × AtMostRetries config ts (evaluate config now s).1 (granted config now s g)

count_recent-append :
    (window now : ℕ) (xs ys : List ℕ)
    → count_recent window now (xs ++ ys) ≡ count_recent window now xs + count_recent window now ys
unfolding count_recent
count_recent-append window now [] ys = omega arith
count_recent-append window now (x ∷ xs) ys = omega (arith, count_recent-append window now xs ys)

count_recent-one-le : (window now t : ℕ) → count_recent window now (t ∷ []) ≤ 1
unfolding count_recent
count_recent-one-le window now t = ground arith

-- What the policy forgets is never counted again.
count_recent-drop_old :
    (window now later : ℕ) (ts : List ℕ)
    → now ≤ later
    → count_recent window later (drop_old window now ts) ≡ count_recent window later ts
unfolding count_recent drop_old
count_recent-drop_old window now later [] h = refl
count_recent-drop_old window now later (t ∷ ts) h =
    ground (arith, count_recent-drop_old window now later ts h)

-- Every granted restart is among the recorded failures, as far as any later window shows.
abbrev Recorded : RestartPolicyConfig → ℕ → ModulePolicyState → List ℕ → Type 0
Recorded config now s g =
    (later : ℕ)
    → now ≤ later
    → count_recent (pos_part config.restart_window_ms) later g
      ≤ count_recent (pos_part config.restart_window_ms) later s.failure_timestamps_ms

evaluate-failures :
    (config : RestartPolicyConfig) (now : ℕ) (s : ModulePolicyState)
    → (((evaluate config now s).1.failure_timestamps_ms ≡ s.failure_timestamps_ms)
        × ((evaluate config now s).0.should_restart ≡ false))
      ⊎ ((evaluate config now s).1.failure_timestamps_ms ≡ recent config now s)
unfolding evaluate
evaluate-failures config now s = ground arith

evaluate-Rising :
    (config : RestartPolicyConfig) (now : ℕ) (s : ModulePolicyState)
    → Rising 0 s.failure_timestamps_ms now
    → Rising 0 (evaluate config now s).1.failure_timestamps_ms now
evaluate-Rising config now s r = elim (evaluate-failures config now s) [
  | inl (e, _) ↦ rw e r
  | inr e ↦ rw e (recent-Rising config now s r)
]

count_recent-recent :
    (config : RestartPolicyConfig) (now later : ℕ) (s : ModulePolicyState)
    → now ≤ later
    → count_recent (pos_part config.restart_window_ms) later (recent config now s)
      ≡ count_recent (pos_part config.restart_window_ms) later s.failure_timestamps_ms
        + count_recent (pos_part config.restart_window_ms) later (now ∷ [])
unfolding recent
count_recent-recent config now later s h =
    let w = pos_part config.restart_window_ms in
    count_recent-append w later (drop_old w now s.failure_timestamps_ms) (now ∷ [])
    ∙ ap (λ (k : ℕ). k + count_recent w later (now ∷ []))
        (count_recent-drop_old w now later s.failure_timestamps_ms h)

evaluate-Recorded :
    (config : RestartPolicyConfig) (now : ℕ) (s : ModulePolicyState) (g : List ℕ)
    → Recorded config now s g
    → Recorded config now (evaluate config now s).1 (granted config now s g)
evaluate-Recorded config now s g h later le = elim (evaluate-failures config now s) [
  | inl (e, no_restart) ↦ rw (e, no_restart) (h later le)
  | inr e ↦ rw e (
      ground (
        arith,
        h later le,
        count_recent-recent config now later s le,
        count_recent-append (pos_part config.restart_window_ms) later g (now ∷ []),
      ))
]

-- The times of the failures rise.
history-AtMostRetries :
    (config : RestartPolicyConfig) (lo : ℕ) (times : List ℕ) (hi : ℕ) (s : ModulePolicyState)
    (g : List ℕ)
    → Rising lo times hi
    → Rising 0 s.failure_timestamps_ms lo
    → Recorded config lo s g
    → AtMostRetries config times s g
history-AtMostRetries config lo [] hi s g rise r h = tt
history-AtMostRetries config lo (now ∷ ts) hi s g rise r h =
    let r' = Rising-later 0 s.failure_timestamps_ms lo now rise.0 r in
    let h' : Recorded config now s g = λ later le. h later (omega arith) in
    (
      λ yes_restart. omega (
        arith,
        h now rise.0,
        ((restart_iff config now s r').0.0 yes_restart).1,
        count_recent-append (pos_part config.restart_window_ms) now g (now ∷ []),
        count_recent-one-le (pos_part config.restart_window_ms) now now,
      ),
      history-AtMostRetries config now ts hi (evaluate config now s).1 (granted config now s g)
          rise.1 (evaluate-Rising config now s r') (evaluate-Recorded config now s g h'),
    )

-- In a history of failures in the order of time, from the start on: in the window that ends at any
-- granted restart, no more restarts are granted than the configured number.
pub at_most_max_retries :
    (config : RestartPolicyConfig) (lo : ℕ) (times : List ℕ) (hi : ℕ)
    → Rising lo times hi
    → AtMostRetries config times initial_state []
unfolding count_recent
at_most_max_retries config lo times hi rise =
    history-AtMostRetries config lo times hi initial_state [] rise (omega arith)
      (λ later le. omega arith)
