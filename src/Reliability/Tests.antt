-- ===== src/Reliability/Tests.antt =====
-- A publisher that succeeds with its third call.
use mould_system_backend.Common.{
  ℕ, pos, Bool, true, false, some, none, [], ◌∷◌, ◌≤◌, ◌<◌, ◌≡◌, ◌≢◌, ◌↔◌, leb, ◌*◌, refl, arith,
}
use mould_system_backend.Reliability.{
  MiddlewareConfig, ReliabilityMetrics, is_valid, publish_with_retry, retry_loop, ack,
}
use mould_system_backend.Reliability.Retry.{
  EndsDelivered, EndsFailed, publish_with_retry_lem, ack_lem,
}

abbrev config : MiddlewareConfig
config = record {
  slot_payload_bytes = 1_024;
  ttl = pos 1_000;
  retry_policy = record {
    max_retries = 3;
    initial_backoff = pos 5;
    multiplier_at_least_one = true;
  };
  backlog_alarm_threshold = 512;
  default_consumer_slots_per_channel = 10;
  shm_slot_count = 256;
}

abbrev metrics : ReliabilityMetrics
metrics = record {
  retry_attempts = 0;
  publish_failures = 0;
  delivery_duplicates = 0;
  consumer_ack_success = 0;
  consumer_ack_timeout = 0;
}

abbrev third_call : ℕ → Bool
third_call k = leb 2 k

default_is_valid : is_valid config ≡ true
unfolding is_valid
default_is_valid = refl

doubled_waits :
    (publish_with_retry (some third_call) (λ w. 2 * w) config (some metrics)).waits ≡ 5 ∷ 10 ∷ []
unfolding publish_with_retry retry_loop is_valid
doubled_waits = refl

publish_with_retry_lem_example :
    let run = publish_with_retry (some third_call) (λ w. 2 * w) config (some metrics) in
    (is_valid config ≡ true
      → (d : ℕ) → d ≤ 3
      → ((j : ℕ) → j < d → third_call j ≡ false)
      → third_call d ≡ true
      → EndsDelivered d metrics run)
    × (is_valid config ≡ true → ((j : ℕ) → j ≤ 3 → third_call j ≡ false) → EndsFailed 3 metrics run)
    × (is_valid config ≡ false
        → (run.delivered ≡ false) × (run.calls ≡ 0) × (run.metrics ≡ some metrics))
publish_with_retry_lem_example =
    publish_with_retry_lem third_call (λ w. 2 * w) config metrics (omega arith) (omega arith)

abbrev delivery : ℕ
delivery = 7

ack_lem_example :
    (((ack delivery true true (some metrics)).0 ≡ true) ↔ ((delivery ≢ 0) × (true ≡ false)))
    × (((ack delivery true true none).0 ≡ true) ↔ (delivery ≢ 0))
    × (delivery ≡ 0 → ack delivery true true (some metrics) ≡ (false, some metrics))
    × (delivery ≢ 0
        → (n : ReliabilityMetrics) → (ack delivery true true (some metrics)).1 ≡ some n
        → (n.consumer_ack_timeout ≡ 1) × (n.consumer_ack_success ≡ 0) × (n.delivery_duplicates ≡ 1))
ack_lem_example = ack_lem delivery true true metrics
