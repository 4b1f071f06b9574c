-- ===== src/Reliability/Retry.antt =====
-- How often a publisher tries, and what it counts.
use mould_system_backend.Common.{
  ℕ, zero, suc, Bool, true, false, none, some, [], ◌∷◌, ◌+◌, ◌^◌, ◌≤◌, ◌<◌, ◌≡◌, ◌≢◌, refl, arith,
  if◌then◌else◌, length, add_u64, pos_part, ◌↔◌,
}
use mould_system_backend.Reliability.{
  MiddlewareConfig, ReliabilityMetrics, RetryRun, is_valid, retry_loop, publish_with_retry, ack,
}

-- The run ends with the k-th call, and the metrics count what failed.
abbrev pub EndsDelivered : ℕ → ReliabilityMetrics → RetryRun → Type 0
EndsDelivered k m run =
    (run.delivered ≡ true)
    × (run.calls ≡ k + 1)
    × (length run.waits ≡ k)
    × (run.metrics ≡ some (record m { retry_attempts = m.retry_attempts + k }))

abbrev pub EndsFailed : ℕ → ReliabilityMetrics → RetryRun → Type 0
EndsFailed retries m run =
    (run.delivered ≡ false)
    × (run.calls ≡ retries + 1)
    × (length run.waits ≡ retries)
    × (run.metrics
        ≡ some (record m {
          retry_attempts = m.retry_attempts + retries + 1;
          publish_failures = m.publish_failures + 1;
        }))

add_u64-small : (a : ℕ) → a + 1 < 2 ^ 64 → add_u64 a 1 ≡ a + 1
add_u64-small a h = omega arith

retry_loop-hit :
    (publish_once : ℕ → Bool) (scale : ℕ → ℕ) (k left wait : ℕ) (m : ReliabilityMetrics)
    → publish_once k ≡ true
    → retry_loop publish_once scale k left wait (some m)
      ≡ record { delivered = true; calls = 1; waits = []; metrics = some m }
unfolding retry_loop
retry_loop-hit publish_once scale k zero wait m hit = rw (retry_loop, hit) refl
retry_loop-hit publish_once scale k (suc left) wait m hit = rw (retry_loop, hit) refl

retry_loop-miss :
    (publish_once : ℕ → Bool) (scale : ℕ → ℕ) (k left wait : ℕ) (m : ReliabilityMetrics)
    → m.retry_attempts + 1 < 2 ^ 64
    → publish_once k ≡ false
    → let rest =
        retry_loop publish_once scale
          (suc k)
          left
          (scale wait)
          (some (record m { retry_attempts = m.retry_attempts + 1 })) in
      retry_loop publish_once scale k (suc left) wait (some m)
      ≡ record rest { calls = suc rest.calls; waits = wait ∷ rest.waits }
unfolding retry_loop
retry_loop-miss publish_once scale k left wait m small miss =
    rw (retry_loop, miss, add_u64-small m.retry_attempts small) refl

retry_loop-delivers :
    (publish_once : ℕ → Bool) (scale : ℕ → ℕ) (k d left wait : ℕ) (m : ReliabilityMetrics)
    → m.retry_attempts + left + 1 < 2 ^ 64
    → d ≤ left
    → ((j : ℕ) → j < d → publish_once (k + j) ≡ false)
    → publish_once (k + d) ≡ true
    → EndsDelivered d m (retry_loop publish_once scale k left wait (some m))
retry_loop-delivers publish_once scale k zero left wait m small le before hit =
    rw (retry_loop-hit publish_once scale k left wait m (ground (arith, hit)))
      (refl, omega arith, refl, ground arith)
retry_loop-delivers publish_once scale k (suc d) zero wait m small le before hit = ground arith
retry_loop-delivers publish_once scale k (suc d) (suc left) wait m small le before hit =
    let m' : ReliabilityMetrics = record m { retry_attempts = m.retry_attempts + 1 } in
    let ih =
      retry_loop-delivers publish_once scale (suc k) d left (scale wait) m' (omega arith)
        (omega arith) (λ j lt. ground (arith, before (suc j))) (ground (arith, hit)) in
    rw (retry_loop-miss publish_once scale k left wait m (omega arith) (ground (arith, before 0)))
      (ih.0, omega (arith, ih.1), omega (arith, ih.2), ground (arith, ih.3))

retry_loop-last_miss :
    (publish_once : ℕ → Bool) (scale : ℕ → ℕ) (k wait : ℕ) (m : ReliabilityMetrics)
    → m.retry_attempts + 1 < 2 ^ 64
    → m.publish_failures + 1 < 2 ^ 64
    → publish_once k ≡ false
    → EndsFailed 0 m (retry_loop publish_once scale k zero wait (some m))
unfolding retry_loop
retry_loop-last_miss publish_once scale k wait m small few miss =
    rw
      (retry_loop, miss, add_u64-small m.retry_attempts small, add_u64-small m.publish_failures few)
      (refl, refl, refl, ground arith)

retry_loop-fails :
    (publish_once : ℕ → Bool) (scale : ℕ → ℕ) (k left wait : ℕ) (m : ReliabilityMetrics)
    → m.retry_attempts + left + 1 < 2 ^ 64
    → m.publish_failures + 1 < 2 ^ 64
    → ((j : ℕ) → j ≤ left → publish_once (k + j) ≡ false)
    → EndsFailed left m (retry_loop publish_once scale k left wait (some m))
retry_loop-fails publish_once scale k zero wait m small few miss =
    retry_loop-last_miss publish_once scale k wait m (omega arith) few (ground (arith, miss 0))
retry_loop-fails publish_once scale k (suc left) wait m small few miss =
    let m' : ReliabilityMetrics = record m { retry_attempts = m.retry_attempts + 1 } in
    let ih =
      retry_loop-fails publish_once scale (suc k) left (scale wait) m' (omega arith) few
        (λ j le. ground (arith, miss (suc j))) in
    rw (retry_loop-miss publish_once scale k left wait m (omega arith) (ground (arith, miss 0)))
      (ih.0, omega (arith, ih.1), omega (arith, ih.2), ground (arith, ih.3))

-- With a valid configuration, the publisher stops at the first call that succeeds, when that is
-- among the first `max_retries + 1` calls; the metrics then count the failures before it. When all
-- of these calls fail, it makes exactly that many, waits between them, and counts one failure to
-- publish. An invalid configuration makes no call. The counters are assumed not to wrap.
pub publish_with_retry_lem :
    (publish_once : ℕ → Bool) (scale : ℕ → ℕ) (config : MiddlewareConfig) (m : ReliabilityMetrics)
    → m.retry_attempts + config.retry_policy.max_retries + 1 < 2 ^ 64
    → m.publish_failures + 1 < 2 ^ 64
    → let max = config.retry_policy.max_retries in
      let run = publish_with_retry (some publish_once) scale config (some m) in
      (is_valid config ≡ true
        → (d : ℕ) → d ≤ max
        → ((j : ℕ) → j < d → publish_once j ≡ false)
        → publish_once d ≡ true
        → EndsDelivered d m run)
      × (is_valid config ≡ true
          → ((j : ℕ) → j ≤ max → publish_once j ≡ false)
          → EndsFailed max m run)
      × (is_valid config ≡ false
          → (run.delivered ≡ false) × (run.calls ≡ 0) × (run.metrics ≡ some m))
unfolding publish_with_retry
publish_with_retry_lem publish_once scale config m small few =
    let policy = config.retry_policy in
    let wait = pos_part policy.initial_backoff in
    (
      λ ok d le before hit.
          rw (publish_with_retry, ok)
            (retry_loop-delivers publish_once scale 0 d policy.max_retries wait m small le
              (λ j lt. ground (arith, before j)) (ground (arith, hit))),
      λ ok miss.
          rw (publish_with_retry, ok)
            (retry_loop-fails publish_once scale 0 policy.max_retries wait m small few
              (λ j le. ground (arith, miss j))),
      λ bad. rw (publish_with_retry, bad) (refl, refl, refl),
    )

-- With metrics, a delivery is acknowledged exactly when it has an id and no timeout, and exactly the
-- counter of that outcome moves. Without metrics the timeout is not looked at: every delivery with
-- an id is acknowledged.
pub ack_lem :
    (delivery_id : ℕ) (is_duplicate timeout : Bool) (m : ReliabilityMetrics)
    → (((ack delivery_id is_duplicate timeout (some m)).0 ≡ true)
        ↔ ((delivery_id ≢ 0) × (timeout ≡ false)))
      × (((ack delivery_id is_duplicate timeout none).0 ≡ true) ↔ (delivery_id ≢ 0))
      × (delivery_id ≡ 0 → ack delivery_id is_duplicate timeout (some m) ≡ (false, some m))
      × (delivery_id ≢ 0
          → (n : ReliabilityMetrics) → (ack delivery_id is_duplicate timeout (some m)).1 ≡ some n
          → (n.consumer_ack_timeout
              ≡ (if timeout then add_u64 m.consumer_ack_timeout 1 else m.consumer_ack_timeout))
            × (n.consumer_ack_success
                ≡ (if timeout then m.consumer_ack_success else add_u64 m.consumer_ack_success 1))
            × (n.delivery_duplicates ≡ (
                if is_duplicate then add_u64 m.delivery_duplicates 1 else m.delivery_duplicates)))
unfolding ack
ack_lem delivery_id is_duplicate timeout m = ground arith
