-- ===== src/Ring/Safety/Reserve.antt =====
-- Reserving and committing a slot keep the ring's invariant.
use mould_system_backend.Common.{
  ℕ, none, some, ◌+◌, ◌*◌, ◌/◌, ◌%◌, ◌^◌, ◌≤◌, ◌<◌, ◌≡◌, ◌≢◌, ◌⊎◌, inl, inr, arith, add_u64,
  ℕ_discrete, true, false,
}
use mould_system_backend.Ring.Control.{reserved, committed, pack_slot_control}
use mould_system_backend.Ring.State.{
  Ring, RingSlotReservation, with_header, store_slot, store_control, online,
}
use mould_system_backend.Ring.Slots.{
  per_slot_capacity, slot_of, reserve_publish_slot_ring_ordered, commit_slot,
}
use mould_system_backend.Ring.Invariant.{IsSafe, IsOccupied, Holds}

-- The ring after a reservation of the head.
abbrev pub reserved_ring : ℕ → Ring → Ring
reserved_ring size r =
    let s = r.next_sequence in
    let i = slot_of r s in
    let r1 = store_control r i (pack_slot_control reserved s) in
    let r2 = with_header r1 (record r1.header { next_sequence = add_u64 s 1 }) in
    store_slot r2 i
      (record (r2.slots i) { payload_size = size; payload_offset = i * per_slot_capacity r })

abbrev pub reservation_of : ℕ → Ring → RingSlotReservation
reservation_of size r = record {
  sequence = r.next_sequence;
  payload_offset = slot_of r r.next_sequence * per_slot_capacity r;
  payload_size = size;
}

-- What a reservation needs.
pub record CanReserve (size : ℕ) (r : Ring) : Type 0 where
  pub some_bytes : size ≢ 0
  pub fits : size ≤ per_slot_capacity r
  pub head_pos : r.next_sequence ≢ 0
  pub in_region : slot_of r r.next_sequence * per_slot_capacity r + size ≤ r.payload_region_bytes
  pub free : (r.slots (slot_of r r.next_sequence)).state_sequence % 2 ^ 32 ≡ 0

pub reserve_outcome :
    (size : ℕ) (r : Ring)
    → (reserve_publish_slot_ring_ordered size r ≡ (none, r))
      ⊎ (CanReserve size r
          × (reserve_publish_slot_ring_ordered size r
              ≡ (some (reservation_of size r, slot_of r r.next_sequence), reserved_ring size r)))
unfolding reserve_publish_slot_ring_ordered
reserve_outcome size r = ground arith

module _ (size : ℕ) (r : Ring) (v : IsSafe r) (g : CanReserve size r)
    (small : r.next_sequence < 2 ^ 32) where
  reserved_ring-kept :
      (c q : ℕ)
      → c < r.consumer_capacity
      → (r.consumers c).state ≡ online
      → (r.consumers c).read_sequence ≤ q
      → q < r.next_sequence + 1
      → Holds ((reserved_ring size r).slots (slot_of r q)).state_sequence q
  reserved_ring-kept c q hc on lo hi = elim (ℕ_discrete q r.next_sequence) [
    | yes e ↦ rw e (ground arith)
    | no ne ↦ ground (arith, v.kept c q hc on lo (omega arith), g.free)
  ]

  reserved_ring-own :
      (i : ℕ)
      → i < r.slot_count
      → IsOccupied ((reserved_ring size r).slots i).state_sequence
      → (slot_of r (((reserved_ring size r).slots i).state_sequence / 2 ^ 32) ≡ i)
        × (1 ≤ ((reserved_ring size r).slots i).state_sequence / 2 ^ 32)
        × (((reserved_ring size r).slots i).state_sequence / 2 ^ 32 < r.next_sequence + 1)
  reserved_ring-own i hi occ = ground (arith, v.own i hi, v.head_pos)

  reserved_ring-shard :
      (i : ℕ)
      → i < r.slot_count
      → IsOccupied ((reserved_ring size r).slots i).state_sequence
      → (((reserved_ring size r).slots i).payload_offset ≡ i * per_slot_capacity r)
        × (((reserved_ring size r).slots i).payload_size ≤ per_slot_capacity r)
  reserved_ring-shard i hi occ = ground (arith, v.shard i hi, g.fits)

  pub reserved_ring-IsSafe : IsSafe (reserved_ring size r)
  reserved_ring-IsSafe = record {
    some_slots = v.some_slots;
    head_pos = omega (arith, v.head_pos);
    head_small = omega (arith, small, v.head_small);
    own = λ i hi occ. ground (arith, reserved_ring-own i hi occ);
    shard = reserved_ring-shard;
    cursor = λ c hc on. ground (arith, v.cursor c hc on);
    kept = λ c q hc on lo hi. reserved_ring-kept c q hc on lo (omega arith);
  }

pub reserve-IsSafe :
    (size : ℕ) (r : Ring)
    → IsSafe r
    → r.next_sequence < 2 ^ 32
    → IsSafe (reserve_publish_slot_ring_ordered size r).1
reserve-IsSafe size r v small = elim (reserve_outcome size r) [
  | inl e ↦ rw e v
  | inr (g, e) ↦ rw e (reserved_ring-IsSafe size r v g small)
]

-- Any change of a slot's control word that keeps its sequence keeps the invariant.
module _ (r : Ring) (i control : ℕ) (v : IsSafe r)
    (same : control / 2 ^ 32 ≡ (r.slots i).state_sequence / 2 ^ 32)
    (occupied : IsOccupied (r.slots i).state_sequence) (occupied' : IsOccupied control) where
  pub restate-IsSafe : IsSafe (store_control r i control)
  restate-IsSafe = record {
    some_slots = v.some_slots;
    head_pos = v.head_pos;
    head_small = v.head_small;
    own = λ j hj occ. ground (arith, v.own j hj);
    shard = λ j hj occ. ground (arith, v.shard j hj);
    cursor = v.cursor;
    kept = λ c q hc on lo hi. ground (arith, v.kept c q hc on lo hi);
  }

-- `CommitSlot` succeeds exactly on a reserved slot, whose sequence it keeps.
abbrev pub committed_ring : ℕ → Ring → Ring
committed_ring i r =
    let r1 =
      store_control r i (pack_slot_control committed ((r.slots i).state_sequence / 2 ^ 32)) in
    with_header r1 (record r1.header { committed_slots = add_u64 r1.committed_slots 1 })

pub commit_outcome :
    (i : ℕ) (r : Ring)
    → ((commit_slot i r ≡ (false, r))
        × ((r.slot_count ≤ i) ⊎ ((r.slots i).state_sequence % 2 ^ 32 ≢ 1)))
      ⊎ ((commit_slot i r ≡ (true, committed_ring i r))
          × (i < r.slot_count)
          × ((r.slots i).state_sequence % 2 ^ 32 ≡ 1))
unfolding commit_slot
commit_outcome i r = ground arith

pub committed_ring-IsSafe :
    (i : ℕ) (r : Ring)
    → IsSafe r
    → i < r.slot_count
    → (r.slots i).state_sequence % 2 ^ 32 ≡ 1
    → IsSafe (committed_ring i r)
committed_ring-IsSafe i r v hi res =
    let w =
      restate-IsSafe r i (pack_slot_control committed ((r.slots i).state_sequence / 2 ^ 32)) v
        (omega (arith, v.own i hi (omega arith), v.head_small)) (omega arith) (omega arith) in
    ground (arith, w)

pub commit-IsSafe : (i : ℕ) (r : Ring) → IsSafe r → IsSafe (commit_slot i r).1
commit-IsSafe i r v = elim (commit_outcome i r) [
  | inl (e, why) ↦ rw e v
  | inr (e, hi, res) ↦ rw e (committed_ring-IsSafe i r v hi res)
]
