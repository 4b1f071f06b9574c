-- ===== src/Restart.antt =====
-- common/comm/src/restart_policy.cpp: whether a module that ended abnormally is started again. Times
-- are milliseconds of the steady clock. `front < now - window` of signed times is written as
-- `front + window < now`, and `max(0, x)` of a setting is the part of it above zero. The sums and products
-- of `std::int64_t` that can overflow, which the language leaves open, wrap around as on the machine.
pub mod Window
pub mod Decisions
pub mod History
mod Tests
use Prim.Native.String.{String}
use mould_system_backend.Common.{
  ℕ, ℤ, pos, negsuc, pos_part, Bool, true, false, List, [], ◌∷◌, ◌++◌, ◌+◌, ◌-◌, ◌*◌, ◌%◌, ◌^◌,
  ◌&&◌, ltb, leb, ltb_ℤ, leb_ℤ, if◌then◌else◌, length, NameMap, store_at,
}

pub record RestartPolicyConfig : Type 0 where
  pub restart_backoff_ms : ℤ
  pub restart_max_retries : ℤ
  pub restart_window_ms : ℤ
  pub restart_fuse_ms : ℤ

pub record RestartDecision : Type 0 where
  pub should_restart : Bool
  pub fuse_open : Bool
  pub restart_delay_ms : ℤ
  pub retries_in_window : ℕ

pub record ModulePolicyState : Type 0 where
  pub failure_timestamps_ms : List ℕ
  pub fuse_open_until_ms : ℤ

abbrev pub initial_state : ModulePolicyState
initial_state = record { failure_timestamps_ms = []; fuse_open_until_ms = negsuc 0 }

-- The signed number of the low 64 bits.
unfoldable pub to_int64 : ℕ → ℤ
to_int64 n =
    if ltb (n % 2 ^ 64) (2 ^ 63) then pos (n % 2 ^ 64) else negsuc (2 ^ 64 - 1 - n % 2 ^ 64)

unfoldable pub pow2_saturating : ℕ → ℕ
pow2_saturating exponent =
    if leb exponent 0 then 1 else if leb 30 exponent then 2 ^ 30 else 2 ^ exponent

-- The loop that drops the failures before the window.
unfoldable pub drop_old : ℕ → ℕ → List ℕ → List ℕ
drop_old window now [] = []
drop_old window now (t ∷ ts) =
    let rest = drop_old window now ts in if ltb (t + window) now then rest else t ∷ ts

abbrev pub is_fused : ℕ → ModulePolicyState → Bool
is_fused now s = leb_ℤ (pos 0) s.fuse_open_until_ms && ltb_ℤ (pos now) s.fuse_open_until_ms

-- The failures in the window, with the new one.
unfoldable pub recent : RestartPolicyConfig → ℕ → ModulePolicyState → List ℕ
recent config now s =
    drop_old (pos_part config.restart_window_ms) now s.failure_timestamps_ms ++ now ∷ []

-- The decision on one module's state.
unfoldable pub evaluate :
    RestartPolicyConfig → ℕ → ModulePolicyState → RestartDecision × ModulePolicyState
evaluate config now s =
    let failures = recent config now s in
    let retries = length failures in
    if is_fused now s
    then (
      record {
        should_restart = false;
        fuse_open = true;
        restart_delay_ms = pos 0;
        retries_in_window = 0;
      },
      s,
    )
    else if ltb (pos_part config.restart_max_retries) retries
    then (
      record {
        should_restart = false;
        fuse_open = true;
        restart_delay_ms = pos 0;
        retries_in_window = retries;
      },
      record {
        failure_timestamps_ms = failures;
        fuse_open_until_ms = to_int64 (now + pos_part config.restart_fuse_ms);
      },
    )
    else (
      record {
        should_restart = true;
        fuse_open = false;
        restart_delay_ms =
            to_int64 (pos_part config.restart_backoff_ms * pow2_saturating (retries - 1));
        retries_in_window = retries;
      },
      record s { failure_timestamps_ms = failures },
    )

abbrev pub RestartPolicy : Type 0
RestartPolicy = NameMap ModulePolicyState

unfoldable pub evaluate_abnormal_exit :
    String → RestartPolicyConfig → ℕ → RestartPolicy → RestartDecision × RestartPolicy
evaluate_abnormal_exit module_name config now policy =
    let (decision, s) = evaluate config now (policy module_name) in
    (decision, store_at policy module_name s)
