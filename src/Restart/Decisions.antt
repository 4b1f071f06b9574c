-- ===== src/Restart/Decisions.antt =====
-- What the policy decides, against the count of failures in the window.
use mould_system_backend.Common.{
  ℕ, zero, suc, ◌-◌, dec_lt, pos_part, true, false, ◌+◌, ◌*◌, ◌%◌, ◌^◌, ◌≤◌, ◌<◌, ◌≡◌, ◌≢◌, ◌↔◌,
  refl, arith, min, length, pos, ◌∙◌, String, store_at_ne, ap,
}
use native.Mathlib.Nat.{pow-le-pow_right}
use mould_system_backend.Restart.{
  RestartPolicyConfig, ModulePolicyState, RestartPolicy, to_int64, pow2_saturating, is_fused,
  recent, evaluate, evaluate_abnormal_exit,
}
use mould_system_backend.Restart.Window.{Rising, count_recent, length-recent}

-- The failures in the window, before the one that is judged.
abbrev pub failures_before : RestartPolicyConfig → ℕ → ModulePolicyState → ℕ
failures_before config now s =
    count_recent (pos_part config.restart_window_ms) now s.failure_timestamps_ms

-- A restart is granted exactly when the fuse is closed and the failures of the window, with the new
-- one, do not exceed the configured number. Otherwise the decision reports an open fuse.
pub restart_iff :
    (config : RestartPolicyConfig) (now : ℕ) (s : ModulePolicyState)
    → Rising 0 s.failure_timestamps_ms now
    → (((evaluate config now s).0.should_restart ≡ true) ↔ (
        (is_fused now s ≡ false)
        × (failures_before config now s + 1 ≤ pos_part config.restart_max_retries)))
      × (((evaluate config now s).0.fuse_open ≡ true)
          ↔ ((evaluate config now s).0.should_restart ≡ false))
unfolding evaluate
restart_iff config now s r = ground (arith, length-recent config now s r)

pow2_below : (e : ℕ) → e < 30 → pow2_saturating e ≡ 2 ^ min e 30
unfolding pow2_saturating
pow2_below zero h = refl
pow2_below (suc e) h =
    let m : min (suc e) 30 ≡ suc e = omega arith in ground (arith, ap (λ (k : ℕ). 2 ^ k) m)

pow2_saturating_lem : (e : ℕ) → pow2_saturating e ≡ 2 ^ min e 30
unfolding pow2_saturating
pow2_saturating_lem e = elim (dec_lt e 30) [
  | yes h ↦ pow2_below e h
  | no h ↦ let m : min e 30 ≡ 30 = omega arith in ground (arith, ap (λ (k : ℕ). 2 ^ k) m)
]

-- A fuse that is open at some time refuses every failure until it closes, and remembers none of them.
pub fuse_holds :
    (config : RestartPolicyConfig) (later : ℕ) (s : ModulePolicyState)
    → is_fused later s ≡ true
    → ((evaluate config later s).0.should_restart ≡ false) × ((evaluate config later s).1 ≡ s)
unfolding evaluate
fuse_holds config later s h = ground arith

mul_bound : (base x : ℕ) → x ≤ 2 ^ 30 → base * x ≤ base * 2 ^ 30
mul_bound base x h = grind arith

product_bound : (base e : ℕ) → base < 2 ^ 33 → base * pow2_saturating e < 2 ^ 63
product_bound base e small =
    let cap : pow2_saturating e ≤ 2 ^ 30 =
      rw (pow2_saturating_lem e)
        (pow-le-pow_right {n = 2} (omega arith) {i = min e 30} {j = 30} (omega arith)) in
    omega (arith, mul_bound base (pow2_saturating e) cap)

to_int64-small : (n : ℕ) → n < 2 ^ 63 → to_int64 n ≡ pos n
unfolding to_int64
to_int64-small n h = let e : n % 2 ^ 64 ≡ n = omega arith in ground (arith, e)

restart_delay :
    (config : RestartPolicyConfig) (now : ℕ) (s : ModulePolicyState)
    → (evaluate config now s).0.should_restart ≡ true
    → (evaluate config now s).0.restart_delay_ms
      ≡ to_int64
          (pos_part config.restart_backoff_ms * pow2_saturating (length (recent config now s) - 1))
unfolding evaluate
restart_delay config now s granted = ground arith

-- With a base delay below 2 ^ 33 milliseconds the delay of a granted restart is that base times two to
-- the number of failures before it in the window, thirty at most: no multiplication overflows.
pub delay_doubles :
    (config : RestartPolicyConfig) (now : ℕ) (s : ModulePolicyState)
    → Rising 0 s.failure_timestamps_ms now
    → pos_part config.restart_backoff_ms < 2 ^ 33
    → (evaluate config now s).0.should_restart ≡ true
    → (evaluate config now s).0.restart_delay_ms
      ≡ pos (pos_part config.restart_backoff_ms * 2 ^ min (failures_before config now s) 30)
delay_doubles config now s r small granted =
    let n = length-recent config now s r in
    let b = pos_part config.restart_backoff_ms in
    let k = failures_before config now s in
    let e : length (recent config now s) - 1 ≡ k = omega (arith, n) in
    restart_delay config now s granted
    ∙ ap (λ (i : ℕ). to_int64 (b * pow2_saturating i)) e
    ∙ to_int64-small (b * pow2_saturating k) (product_bound b k small)
    ∙ ap (λ (i : ℕ). pos (b * i)) (pow2_saturating_lem k)

-- The failures of one module do not touch the state of another.
pub evaluate-other_modules :
    (name other : String) (config : RestartPolicyConfig) (now : ℕ) (policy : RestartPolicy)
    → name ≢ other
    → (evaluate_abnormal_exit name config now policy).1 other ≡ policy other
unfolding evaluate_abnormal_exit
evaluate-other_modules name other config now policy ne = store_at_ne policy name other _ ne
