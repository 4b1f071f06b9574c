-- ===== src/Ring/State.antt =====
-- common/comm/include/shm_ring_buffer.hpp: the ring's tables in shared memory. A table is a
-- function from an index to a cell, as the code reaches it by pointer and index; the counts that
-- bound the indices stand in the header. A view is one that `Initialize` or `Attach` returned, so
-- its pointers are not null. The file descriptor of a notification entry is an integer.
use mould_system_backend.Common.{ℕ, ℤ, Bool, true, false, ◌==◌, ltb, if◌then◌else◌, update}

abbrev pub ring_layout_magic : ℕ
ring_layout_magic = 0x5249_4e47

abbrev pub ring_layout_version : ℕ
ring_layout_version = 8

-- `enum class ConsumerState`.
pub data ConsumerState : Type 0 where
  offline online registering : ConsumerState

pub record RingHeader : Type 0 where
  pub magic : ℕ
  pub version : ℕ
  pub slot_count : ℕ
  pub consumer_capacity : ℕ
  pub notification_capacity : ℕ
  pub payload_region_bytes : ℕ
  pub next_sequence : ℕ
  pub reclaim_sequence : ℕ
  pub membership_generation : ℕ
  pub committed_slots : ℕ
  pub reclaim_count : ℕ
  pub membership_change_count : ℕ
  pub consumer_online_events : ℕ
  pub consumer_offline_events : ℕ
  pub producer_block_total_ns : ℕ
  pub producer_payload_slot_ticket : ℕ

pub record ConsumerCursor : Type 0 where
  pub read_sequence : ℕ
  pub state : ConsumerState
  pub owner_pid : ℕ
  pub owner_start_epoch : ℕ

pub record SlotMeta : Type 0 where
  pub state_sequence : ℕ
  pub payload_size : ℕ
  pub claimed : ℕ
  pub payload_offset : ℕ

pub record RingSlotReservation : Type 0 where
  pub sequence : ℕ
  pub payload_offset : ℕ
  pub payload_size : ℕ

-- What a `RingLayoutView` points at: the header, the three tables and the payload bytes.
pub record Ring : Type 0 where
  pub header : RingHeader
  pub open header use *
  pub consumers : ℕ → ConsumerCursor
  pub notification_mappings : ℕ → ℤ
  pub slots : ℕ → SlotMeta
  pub payload_region : ℕ → ℕ

abbrev pub with_header : Ring → RingHeader → Ring
with_header r h = record r { header = h }

-- `consumers_[i] = c`, `slots_[i] = s`.
abbrev pub store_consumer : Ring → ℕ → ConsumerCursor → Ring
store_consumer r i c = record r { consumers = update r.consumers i c }

abbrev pub store_slot : Ring → ℕ → SlotMeta → Ring
store_slot r i s = record r { slots = update r.slots i s }

-- `slots_[i].state_sequence.store(control)`.
abbrev pub store_control : Ring → ℕ → ℕ → Ring
store_control r i control = store_slot r i (record (r.slots i) { state_sequence = control })

-- `slots_[i].state_sequence.compare_exchange_strong(expected, desired)`.
abbrev pub cas_control : Ring → ℕ → ℕ → ℕ → Bool × Ring
cas_control r i expected desired =
    if (r.slots i).state_sequence == expected then (true, store_control r i desired) else (false, r)

-- `header_->next_sequence.compare_exchange_strong(expected, desired)`.
abbrev pub cas_next_sequence : Ring → ℕ → ℕ → Bool × Ring
cas_next_sequence r expected desired =
    if r.next_sequence == expected
    then (true, with_header r (record r.header { next_sequence = desired }))
    else (false, r)

abbrev pub same_state : ConsumerState → ConsumerState → Bool
same_state offline offline = true
same_state online online = true
same_state registering registering = true
same_state _ _ = false

-- `consumers_[i].state.compare_exchange_strong(expected, desired)`.
abbrev pub cas_consumer_state : Ring → ℕ → ConsumerState → ConsumerState → Bool × Ring
cas_consumer_state r i expected desired =
    if same_state (r.consumers i).state expected
    then (true, store_consumer r i (record (r.consumers i) { state = desired }))
    else (false, r)

-- `consumers_[i].read_sequence.store(sequence)`.
abbrev pub store_read_sequence : Ring → ℕ → ℕ → Ring
store_read_sequence r i sequence =
    store_consumer r i (record (r.consumers i) { read_sequence = sequence })

-- `consumers_[i].state == kOnline`.
abbrev pub is_online : ConsumerState → Bool
is_online online = true
is_online _ = false

-- `IsSlotIndexValid`: the view is never null here.
unfoldable pub is_slot_index_valid : ℕ → Ring → Bool
is_slot_index_valid slot_index r = ltb slot_index r.slot_count
