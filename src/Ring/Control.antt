-- ===== src/Ring/Control.antt =====
-- common/comm/include/shm_ring_buffer.hpp: the slot's control word and the states that it packs.
use mould_system_backend.Common.{ℕ, ◌+◌, ◌*◌, ◌/◌, ◌%◌, ◌^◌, ◌<◌, ◌≡◌, u64_mod, arith}

-- `enum class SlotState`.
pub data SlotState : Type 0 where
  empty reserved committed : SlotState

abbrev pub slot_state_code : SlotState → ℕ
slot_state_code empty = 0
slot_state_code reserved = 1
slot_state_code committed = 2

-- `(sequence << 32U) | state` on 64 bits. The shifted word ends in 32 zero bits, so `|` adds.
abbrev pub pack_slot_control : SlotState → ℕ → ℕ
pack_slot_control state sequence = (sequence * 2 ^ 32) % u64_mod + slot_state_code state

-- The state's code: the low 32 bits.
abbrev pub unpack_slot_state : ℕ → ℕ
unpack_slot_state control = control % 2 ^ 32

abbrev pub unpack_slot_sequence : ℕ → ℕ
unpack_slot_sequence control = control / 2 ^ 32

pub code_cases : (st : SlotState) → slot_state_code st < 3
code_cases empty = omega arith
code_cases reserved = omega arith
code_cases committed = omega arith

-- Unpacking gives back the state, and the low 32 bits of the sequence: the whole sequence exactly
-- when it is below 2 ^ 32.
pub unpack-pack_slot_control :
    (st : SlotState) (sequence : ℕ)
    → (unpack_slot_state (pack_slot_control st sequence) ≡ slot_state_code st)
      × (unpack_slot_sequence (pack_slot_control st sequence) ≡ sequence % 2 ^ 32)
unpack-pack_slot_control st sequence = omega (arith, code_cases st)

pub pack_slot_control-lt : (st : SlotState) (sequence : ℕ) → pack_slot_control st sequence < u64_mod
pack_slot_control-lt st sequence = omega (arith, code_cases st)
