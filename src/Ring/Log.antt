-- ===== src/Ring/Log.antt =====
-- The abstract view: a log of messages, one payload for each sequence. A ring stores the log when
-- every committed slot's bytes are the payload of the sequence that it holds.
use mould_system_backend.Common.{
  ℕ, List, ◌+◌, ◌*◌, ◌/◌, ◌%◌, ◌^◌, ◌≤◌, ◌<◌, ◌≡◌, ◌≢◌, ◌⊎◌, inl, inr, refl, sym, ◌∙◌, arith,
  length, update, write_bytes, read_bytes, read_bytes-write_bytes_self,
  read_bytes-write_bytes_disjoint, ℕ_discrete, dec_lt,
}
use mould_system_backend.Ring.Control.{committed, pack_slot_control}
use mould_system_backend.Ring.State.{Ring}
use mould_system_backend.Ring.Slots.{per_slot_capacity, slot_of}
use mould_system_backend.Ring.Invariant.{IsSafe}
use mould_system_backend.Ring.Safety.Reserve.{
  reserved_ring, committed_ring, committed_ring-IsSafe, reserved_ring-IsSafe, CanReserve,
}

abbrev pub Log : Type 0
Log = ℕ → List ℕ

abbrev pub Stores : Ring → Log → Type 0
Stores r log =
    (i : ℕ)
    → i < r.slot_count
    → (r.slots i).state_sequence % 2 ^ 32 ≡ 2
    → read_bytes r.payload_region (r.slots i).payload_offset (r.slots i).payload_size
      ≡ log ((r.slots i).state_sequence / 2 ^ 32)

pub mul_mono : (a b p : ℕ) → a ≤ b → a * p ≤ b * p
mul_mono a b p h = grind arith

-- Two different shards do not meet.
shard-disjoint : (i j p m n : ℕ) → i ≢ j → m ≤ p → n ≤ p → (j * p + n ≤ i * p) ⊎ (i * p + m ≤ j * p)
shard-disjoint i j p m n ne hm hn = elim (dec_lt i j) [
  | yes lt ↦ inr (omega (arith, mul_mono (i + 1) j p (omega arith)))
  | no ge ↦ inl (omega (arith, mul_mono (j + 1) i p (omega arith)))
]

-- The ring after a reserved slot's bytes are written.
abbrev pub written_ring : List ℕ → Ring → Ring
written_ring payload r =
    let q = reserved_ring (length payload) r in
    record q {
      payload_region =
          write_bytes r.payload_region (slot_of r r.next_sequence * per_slot_capacity r) payload;
    }

-- And the ring after its commit.
unfoldable pub published_ring : List ℕ → Ring → Ring
published_ring payload r = committed_ring (slot_of r r.next_sequence) (written_ring payload r)

-- Publishing appends to the log: the new sequence's bytes are the payload, all others stay.
module _ (payload : List ℕ) (r : Ring) (log : Log) (v : IsSafe r) (st : Stores r log)
    (g : CanReserve (length payload) r) (small : r.next_sequence < 2 ^ 32) where
  pub published_slot :
      (((published_ring payload r).slots (slot_of r r.next_sequence)).state_sequence
        ≡ pack_slot_control committed r.next_sequence)
      × (((published_ring payload r).slots (slot_of r r.next_sequence)).payload_offset
          ≡ slot_of r r.next_sequence * per_slot_capacity r)
      × (((published_ring payload r).slots (slot_of r r.next_sequence)).payload_size
          ≡ length payload)
  unfolding published_ring
  published_slot = ground arith

  pub published_slot_ne :
      (i : ℕ) → i ≢ slot_of r r.next_sequence → (published_ring payload r).slots i ≡ r.slots i
  unfolding published_ring
  published_slot_ne i ne = ground arith

  published_region :
      (published_ring payload r).payload_region
      ≡ write_bytes r.payload_region (slot_of r r.next_sequence * per_slot_capacity r) payload
  unfolding published_ring
  published_region = refl

  -- The bytes of another committed slot stay, and it is not the slot of the new sequence.
  published_other :
      (i : ℕ)
      → i ≢ slot_of r r.next_sequence
      → i < r.slot_count
      → (r.slots i).state_sequence % 2 ^ 32 ≡ 2
      → read_bytes
          (published_ring payload r).payload_region
          (r.slots i).payload_offset
          (r.slots i).payload_size
        ≡ update log r.next_sequence payload ((r.slots i).state_sequence / 2 ^ 32)
  published_other i ne hi two =
      rw
        (
          published_region,
          read_bytes-write_bytes_disjoint r.payload_region
              (slot_of r r.next_sequence * per_slot_capacity r) payload (r.slots i).payload_offset
              (r.slots i).payload_size apart,
        )
        (st i hi two ∙ ground (arith, v.own i hi (omega arith)))
    where
      apart :
          ((r.slots i).payload_offset + (r.slots i).payload_size
            ≤ slot_of r r.next_sequence * per_slot_capacity r)
          ⊎ (slot_of r r.next_sequence * per_slot_capacity r + length payload
              ≤ (r.slots i).payload_offset)
      apart = rw ((v.shard i hi (omega arith)).0) (
          shard-disjoint (slot_of r r.next_sequence) i (per_slot_capacity r) (length payload)
            (r.slots i).payload_size (λ e. ne (sym e)) g.fits (v.shard i hi (omega arith)).1)

  published_count : (published_ring payload r).slot_count ≡ r.slot_count
  unfolding published_ring
  published_count = refl

  pub published-Stores : Stores (published_ring payload r) (update log r.next_sequence payload)
  published-Stores i hi two = elim (ℕ_discrete i (slot_of r r.next_sequence)) [
    | yes e ↦
        rw (e, published_region, published_slot.0, published_slot.1, published_slot.2)
          (read_bytes-write_bytes_self _ _ payload ∙ ground arith)
    | no ne ↦
        rw (published_slot_ne i ne)
          (published_other i ne (rw (published_count) at hi) (rw (published_slot_ne i ne) at two))
  ]

with_region-IsSafe : (r : Ring) (m : ℕ → ℕ) → IsSafe r → IsSafe (record r { payload_region = m })
with_region-IsSafe r m v = record {
  some_slots = v.some_slots;
  head_pos = v.head_pos;
  head_small = v.head_small;
  own = v.own;
  shard = v.shard;
  cursor = v.cursor;
  kept = v.kept;
}

pub published-IsSafe :
    (payload : List ℕ) (r : Ring)
    → IsSafe r
    → CanReserve (length payload) r
    → r.next_sequence < 2 ^ 32
    → IsSafe (published_ring payload r)
unfolding published_ring
published-IsSafe payload r v g small =
    committed_ring-IsSafe (slot_of r r.next_sequence) (written_ring payload r)
      (with_region-IsSafe (reserved_ring (length payload) r) _
        (reserved_ring-IsSafe (length payload) r v g small))
      (omega (arith, v.some_slots)) (ground arith)

pub published_next :
    (payload : List ℕ) (r : Ring)
    → r.next_sequence < 2 ^ 32
    → (published_ring payload r).next_sequence ≡ r.next_sequence + 1
unfolding published_ring
published_next payload r small = omega arith
