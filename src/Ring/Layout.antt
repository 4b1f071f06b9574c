-- ===== src/Ring/Layout.antt =====
-- common/comm/src/shm_ring_buffer.cpp: the layout of the shared memory, `Initialize` and `Attach`.
-- The sizes of the four structs are those of their fields with natural alignment.
use mould_system_backend.Common.{
  ℕ, zero, suc, ℤ, pos, Option, none, some, ◌+◌, ◌*◌, ◌/◌, ◌||◌, not, ◌==◌, ltb, ltb_ℤ,
  if◌then◌else◌, add_u64,
}
use mould_system_backend.Ring.State.{
  Ring, RingHeader, ConsumerCursor, SlotMeta, offline, ring_layout_magic, ring_layout_version,
}
use mould_system_backend.Ring.Metrics.{set_consumer_notification_fd}

abbrev pub sizeof_ring_header : ℕ
sizeof_ring_header = 112

abbrev pub sizeof_consumer_cursor : ℕ
sizeof_consumer_cursor = 24

abbrev pub sizeof_notification_mapping_entry : ℕ
sizeof_notification_mapping_entry = 8

abbrev pub sizeof_slot_meta : ℕ
sizeof_slot_meta = 24

unfoldable pub align8 : ℕ → ℕ
align8 value = (value + 7) / 8 * 8

unfoldable pub compute_ring_layout_size_bytes : ℕ → ℕ → ℕ
unfolding align8
compute_ring_layout_size_bytes slot_count consumer_capacity = align8 (
    sizeof_ring_header
    + sizeof_consumer_cursor * consumer_capacity
    + sizeof_notification_mapping_entry * consumer_capacity
    + sizeof_slot_meta * slot_count)

abbrev pub initial_header : ℕ → ℕ → ℕ → RingHeader
initial_header slot_count consumer_capacity payload_region_bytes = record {
  magic = ring_layout_magic;
  version = ring_layout_version;
  slot_count = slot_count;
  consumer_capacity = consumer_capacity;
  notification_capacity = consumer_capacity;
  payload_region_bytes = payload_region_bytes;
  next_sequence = 1;
  reclaim_sequence = 1;
  membership_generation = 1;
  committed_slots = 0;
  reclaim_count = 0;
  membership_change_count = 0;
  consumer_online_events = 0;
  consumer_offline_events = 0;
  producer_block_total_ns = 0;
  producer_payload_slot_ticket = 0;
}

abbrev zero_consumer : ConsumerCursor
zero_consumer = record { read_sequence = 0; state = offline; owner_pid = 0; owner_start_epoch = 0 }

abbrev zero_slot : SlotMeta
zero_slot = record { state_sequence = 0; payload_size = 0; claimed = 0; payload_offset = 0 }

-- The memory after `memset` and the stores to the header.
abbrev pub fresh_ring : ℕ → ℕ → ℕ → Ring
fresh_ring slot_count consumer_capacity payload_region_bytes = record {
  header = initial_header slot_count consumer_capacity payload_region_bytes;
  consumers = λ i. zero_consumer;
  notification_mappings = λ i. pos 0;
  slots = λ i. zero_slot;
  payload_region = λ i. 0;
}

-- One event descriptor for each consumer; a failure closes those opened and gives up.
unfoldable pub open_notifications : (ℕ → ℤ) → ℕ → ℕ → Ring → Option Ring
open_notifications eventfd zero i r = some r
open_notifications eventfd (suc k) i r =
    let (stored, r1) = set_consumer_notification_fd i (eventfd i) r in
    let rest = open_notifications eventfd k (i + 1) r1 in
    if ltb_ℤ (eventfd i) (pos 0) || not stored then none else rest

-- `eventfd i` is what the i-th call of the system returns.
unfoldable pub initialize : (ℕ → ℤ) → ℕ → ℕ → ℕ → ℕ → Option Ring
unfolding open_notifications
initialize eventfd total_size slot_count consumer_capacity payload_region_bytes =
    let layout_size = compute_ring_layout_size_bytes slot_count consumer_capacity in
    if slot_count == 0
      || payload_region_bytes == 0
      || ltb total_size (add_u64 layout_size payload_region_bytes)
    then none
    else open_notifications eventfd consumer_capacity 0
        (fresh_ring slot_count consumer_capacity payload_region_bytes)

-- The memory that is attached to is the argument.
unfoldable pub attach : ℕ → ℕ → Ring → Option Ring
attach total_size expected_version r =
    let layout_size = compute_ring_layout_size_bytes r.slot_count r.consumer_capacity in
    if ltb total_size sizeof_ring_header
      || not (r.magic == ring_layout_magic)
      || not (r.version == expected_version)
      || ltb total_size (add_u64 layout_size r.payload_region_bytes)
    then none
    else some r
