-- ===== src/Reliability.antt =====
-- common/comm/src/reliability.cpp: publishing again after a failure, and acknowledging a delivery.
-- The k-th call of the caller's function has the k-th answer. The product of a wait and the backoff
-- multiplier, which the source computes in doubles, is an argument, and so is whether the multiplier
-- is at least one.
pub mod Retry
mod Tests
use mould_system_backend.Common.{
  ℕ, zero, suc, ℤ, pos, pos_part, Bool, true, false, not, ◌&&◌, Option, none, some, List, [], ◌∷◌,
  ◌+◌, ◌==◌, ltb, leb, ltb_ℤ, if◌then◌else◌, add_u64,
}

pub record RetryPolicy : Type 0 where
  pub max_retries : ℕ
  pub initial_backoff : ℤ
  pub multiplier_at_least_one : Bool

pub record MiddlewareConfig : Type 0 where
  pub slot_payload_bytes : ℕ
  pub ttl : ℤ
  pub retry_policy : RetryPolicy
  pub backlog_alarm_threshold : ℕ
  pub default_consumer_slots_per_channel : ℕ
  pub shm_slot_count : ℕ

unfoldable pub is_valid : MiddlewareConfig → Bool
is_valid config =
    ltb 0 config.slot_payload_bytes
    && ltb_ℤ (pos 0) config.ttl
    && ltb_ℤ (pos 0) config.retry_policy.initial_backoff
    && config.retry_policy.multiplier_at_least_one
    && leb config.backlog_alarm_threshold config.slot_payload_bytes
    && leb 1 config.default_consumer_slots_per_channel
    && leb config.default_consumer_slots_per_channel 1_024
    && leb 1 config.shm_slot_count

-- The counters that these functions change.
pub record ReliabilityMetrics : Type 0 where
  pub retry_attempts : ℕ
  pub publish_failures : ℕ
  pub delivery_duplicates : ℕ
  pub consumer_ack_success : ℕ
  pub consumer_ack_timeout : ℕ

abbrev pub with_metrics :
    (ReliabilityMetrics → ReliabilityMetrics)
    → Option ReliabilityMetrics
    → Option ReliabilityMetrics
with_metrics f none = none
with_metrics f (some m) = some (f m)

abbrev pub count_retry : ReliabilityMetrics → ReliabilityMetrics
count_retry m = record m { retry_attempts = add_u64 m.retry_attempts 1 }

abbrev pub count_failure : ReliabilityMetrics → ReliabilityMetrics
count_failure m = record m { publish_failures = add_u64 m.publish_failures 1 }

-- What a call of `PublishWithRetry` did: its answer, the calls that it made, and how long it slept
-- between them.
pub record RetryRun : Type 0 where
  pub delivered : Bool
  pub calls : ℕ
  pub waits : List ℕ
  pub metrics : Option ReliabilityMetrics

-- The attempts from the k-th on, with the number of retries that are left.
unfoldable pub retry_loop : (ℕ → Bool) → (ℕ → ℕ) → ℕ → ℕ → ℕ → Option ReliabilityMetrics → RetryRun
retry_loop publish_once scale k zero wait metrics =
    if publish_once k
    then record { delivered = true; calls = 1; waits = []; metrics = metrics }
    else record {
      delivered = false;
      calls = 1;
      waits = [];
      metrics = with_metrics count_failure (with_metrics count_retry metrics);
    }
retry_loop publish_once scale k (suc left) wait metrics =
    let rest =
      retry_loop publish_once scale (suc k) left (scale wait) (with_metrics count_retry metrics) in
    if publish_once k
    then record { delivered = true; calls = 1; waits = []; metrics = metrics }
    else record rest { calls = suc rest.calls; waits = wait ∷ rest.waits }

unfoldable pub publish_with_retry :
    Option (ℕ → Bool) → (ℕ → ℕ) → MiddlewareConfig → Option ReliabilityMetrics → RetryRun
unfolding retry_loop is_valid
publish_with_retry none scale config metrics = record {
  delivered = false;
  calls = 0;
  waits = [];
  metrics = metrics;
}
publish_with_retry (some publish_once) scale config metrics =
    let policy = config.retry_policy in
    if not (is_valid config)
    then record { delivered = false; calls = 0; waits = []; metrics = metrics }
    else retry_loop publish_once scale 0 policy.max_retries (pos_part policy.initial_backoff)
        metrics

unfoldable pub ack : ℕ → Bool → Bool → Option ReliabilityMetrics → Bool × Option ReliabilityMetrics
ack delivery_id is_duplicate timeout none = (not (delivery_id == 0), none)
ack delivery_id is_duplicate timeout (some m) =
    let m' =
      if is_duplicate
      then record m { delivery_duplicates = add_u64 m.delivery_duplicates 1 }
      else m in
    if delivery_id == 0
    then (false, some m)
    else if timeout
    then (false, some (record m' { consumer_ack_timeout = add_u64 m'.consumer_ack_timeout 1 }))
    else (true, some (record m' { consumer_ack_success = add_u64 m'.consumer_ack_success 1 }))
