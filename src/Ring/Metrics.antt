-- ===== src/Ring/Metrics.antt =====
-- common/comm/src/shm_ring_buffer.cpp: lag, health metrics, counters and notification entries.
use mould_system_backend.Common.{
  ℕ, zero, suc, ℤ, Bool, true, false, Option, none, some, ◌+◌, ◌-◌, ◌%◌, not, ◌==◌, ltb, leb,
  if◌then◌else◌, add_u64, update,
}
use mould_system_backend.Ring.State.{Ring, with_header}
use mould_system_backend.Ring.Consumers.{load_consumer_cursor}

pub record RingHealthMetrics : Type 0 where
  pub occupancy_slots : ℕ
  pub slot_capacity : ℕ
  pub producer_block_total_ns : ℕ
  pub max_consumer_lag : ℕ
  pub reclaim_count : ℕ
  pub membership_change_count : ℕ
  pub consumer_online_events : ℕ
  pub consumer_offline_events : ℕ

abbrev lag_of : ℕ → Option ℕ → Option ℕ
lag_of next none = none
lag_of next (some c) = some (if leb next c then 0 else next - c)

unfoldable pub consumer_lag : ℕ → Ring → Option ℕ
consumer_lag c r = lag_of r.next_sequence (load_consumer_cursor c r)

abbrev raise_lag : ℕ → Option ℕ → ℕ
raise_lag m none = m
raise_lag m (some lag) = if ltb m lag then lag else m

unfoldable pub max_lag : ℕ → ℕ → ℕ → Ring → ℕ
max_lag zero i m r = m
max_lag (suc k) i m r = max_lag k (i + 1) (raise_lag m (consumer_lag i r)) r

unfoldable pub observe_health_metrics : Ring → RingHealthMetrics
unfolding max_lag
observe_health_metrics r = record {
  occupancy_slots = r.committed_slots;
  slot_capacity = r.slot_count;
  producer_block_total_ns = r.producer_block_total_ns;
  max_consumer_lag = max_lag r.consumer_capacity 0 0 r;
  reclaim_count = r.reclaim_count;
  membership_change_count = r.membership_change_count;
  consumer_online_events = r.consumer_online_events;
  consumer_offline_events = r.consumer_offline_events;
}

unfoldable pub record_producer_block_duration : ℕ → Ring → Ring
record_producer_block_duration ns r =
    with_header r
      (record r.header { producer_block_total_ns = add_u64 r.producer_block_total_ns ns })

unfoldable pub take_next_producer_payload_slot_index : Ring → ℕ × Ring
take_next_producer_payload_slot_index r = if r.slot_count == 0 then (0, r) else (
  r.producer_payload_slot_ticket % r.slot_count,
  with_header r
      (record r.header { producer_payload_slot_ticket = add_u64 r.producer_payload_slot_ticket 1 }),
)

unfoldable pub set_consumer_notification_fd : ℕ → ℤ → Ring → Bool × Ring
set_consumer_notification_fd c fd r =
    if not (ltb c r.notification_capacity)
    then (false, r)
    else (true, record r { notification_mappings = update r.notification_mappings c fd })

unfoldable pub load_consumer_notification_fd : ℕ → Ring → Option ℤ
load_consumer_notification_fd c r =
    if not (ltb c r.notification_capacity) then none else some (r.notification_mappings c)
