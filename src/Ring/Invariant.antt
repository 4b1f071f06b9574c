-- ===== src/Ring/Invariant.antt =====
-- The ring's invariant between calls: what each slot and each cursor may hold.
use mould_system_backend.Common.{ℕ, ◌*◌, ◌/◌, ◌%◌, ◌^◌, ◌≤◌, ◌<◌, ◌≡◌, ◌≢◌}
use mould_system_backend.Ring.State.{Ring, online}
use mould_system_backend.Ring.Slots.{per_slot_capacity, slot_of}

-- The slot is reserved or committed, not empty.
abbrev pub IsOccupied : ℕ → Type 0
IsOccupied control = control % 2 ^ 32 ≢ 0

-- The slot belongs to this sequence.
abbrev pub Holds : ℕ → ℕ → Type 0
Holds control sequence = (control / 2 ^ 32 ≡ sequence) × IsOccupied control

pub record IsSafe (r : Ring) : Type 0 where
  pub some_slots : 0 < r.slot_count
  pub head_pos : 1 ≤ r.next_sequence
  -- The control word keeps 32 bits of a sequence.
  pub head_small : r.next_sequence ≤ 2 ^ 32
  -- An occupied slot holds an earlier sequence, and the one that belongs there.
  pub own :
      (i : ℕ)
      → i < r.slot_count
      → IsOccupied (r.slots i).state_sequence
      → (slot_of r ((r.slots i).state_sequence / 2 ^ 32) ≡ i)
        × (1 ≤ (r.slots i).state_sequence / 2 ^ 32)
        × ((r.slots i).state_sequence / 2 ^ 32 < r.next_sequence)
  -- Its bytes lie in the slot's shard.
  pub shard :
      (i : ℕ)
      → i < r.slot_count
      → IsOccupied (r.slots i).state_sequence
      → ((r.slots i).payload_offset ≡ i * per_slot_capacity r)
        × ((r.slots i).payload_size ≤ per_slot_capacity r)
  -- An online cursor stands between the first sequence and the head.
  pub cursor :
      (c : ℕ)
      → c < r.consumer_capacity
      → (r.consumers c).state ≡ online
      → (1 ≤ (r.consumers c).read_sequence) × ((r.consumers c).read_sequence ≤ r.next_sequence)
  -- What a consumer has still to read is in its slot.
  pub kept :
      (c q : ℕ)
      → c < r.consumer_capacity
      → (r.consumers c).state ≡ online
      → (r.consumers c).read_sequence ≤ q
      → q < r.next_sequence
      → Holds (r.slots (slot_of r q)).state_sequence q
