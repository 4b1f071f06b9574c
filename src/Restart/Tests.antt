-- ===== src/Restart/Tests.antt =====
-- The restart policy at a module that may be restarted twice in ten seconds.
use mould_system_backend.Common.{
  pos, negsuc, ◌-◌, true, false, [], ◌∷◌, ◌+◌, ◌*◌, ◌^◌, ◌≤◌, ◌≡◌, ◌↔◌, refl, arith, min,
}
use mould_system_backend.Restart.{
  RestartPolicyConfig, ModulePolicyState, initial_state, is_fused, drop_old, recent, evaluate,
  to_int64, pow2_saturating,
}
use mould_system_backend.Restart.Decisions.{failures_before, restart_iff, delay_doubles}
use mould_system_backend.Restart.History.{AtMostRetries, at_most_max_retries}

abbrev config : RestartPolicyConfig
config = record {
  restart_backoff_ms = pos 100;
  restart_max_retries = pos 2;
  restart_window_ms = pos 10_000;
  restart_fuse_ms = pos 60_000;
}

-- One failure is recorded.
abbrev failed_once : ModulePolicyState
failed_once = record initial_state { failure_timestamps_ms = 1_000 ∷ [] }

abbrev fused : ModulePolicyState
fused = record initial_state { fuse_open_until_ms = pos 70_000 }

second_failure : (evaluate config 2_000 failed_once).0 ≡ record {
  should_restart = true;
  fuse_open = false;
  restart_delay_ms = pos 200;
  retries_in_window = 2;
}
unfolding evaluate recent drop_old pow2_saturating to_int64
second_failure = refl

-- A base delay that the launch plan accepts, of 2 ^ 62 milliseconds: the second restart comes without
-- a delay, since the product overflows.
no_delay :
    (evaluate (record config { restart_backoff_ms = pos (2 ^ 62) }) 2_000 failed_once).0 ≡ record {
      should_restart = true;
      fuse_open = false;
      restart_delay_ms = negsuc (2 ^ 63 - 1);
      retries_in_window = 2;
    }
unfolding evaluate recent drop_old pow2_saturating to_int64
no_delay = refl

restart_iff_example :
    (((evaluate config 2_000 failed_once).0.should_restart ≡ true)
      ↔ ((is_fused 2_000 failed_once ≡ false) × (failures_before config 2_000 failed_once + 1 ≤ 2)))
    × (((evaluate config 2_000 failed_once).0.fuse_open ≡ true)
        ↔ ((evaluate config 2_000 failed_once).0.should_restart ≡ false))
restart_iff_example = restart_iff config 2_000 failed_once (omega arith)

delay_doubles_example :
    (evaluate config 2_000 failed_once).0.restart_delay_ms
    ≡ pos (100 * 2 ^ min (failures_before config 2_000 failed_once) 30)
unfolding evaluate recent drop_old
delay_doubles_example = delay_doubles config 2_000 failed_once (omega arith) (omega arith) refl

at_most_max_retries_example : AtMostRetries config (1_000 ∷ 2_000 ∷ 3_000 ∷ []) initial_state []
at_most_max_retries_example =
    at_most_max_retries config 0 (1_000 ∷ 2_000 ∷ 3_000 ∷ []) 3_000 (omega arith)
