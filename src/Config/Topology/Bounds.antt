-- ===== src/Config/Topology/Bounds.antt =====
-- The range of a channel's sizes, and the shared-memory names of different channels.
use mould_system_backend.Common.{
  ℕ, Bool, true, ◌&&◌, not, Bytes, Option, none, some, List, [], ◌∷◌, ◌++◌, ◌%◌, ◌^◌, ◌≤◌, ◌<◌, max,
  ◌≡◌, refl, arith, if◌then◌else◌, find, ltb, leb, ◌==◌, Bool-cases, inl, inr, sym, ap, ◌∙◌,
}
use mould_system_backend.Config.Decimal.{digits_value}
use mould_system_backend.Config.Topology.{ChannelTopologyEntry}
use mould_system_backend.Config.Topology.Resolve.{
  all_digits, parse_positive_size_or_zero, max_uint32, shm_consumer_slots_key, shm_slot_count_key,
  size_of, resolve_shm_ring_consumer_capacity, resolve_shm_slot_count_for_channel, separator,
  key_of_names, canonical_shm_channel_key,
}

-- A configured size that is digits is below 2 ^ 64.
abbrev pub IsSizeText : Option Bytes → Type 0
IsSizeText none = Unit {0}
IsSizeText (some text) = all_digits text ≡ true → digits_value 0 text < 2 ^ 64

in_range : (v : ℕ) → v < 2 ^ 64 → (if ltb v (2 ^ 64) then some v else none) ≡ some v
in_range v h = ground arith

size_of-IsSizeText :
    (text : Option Bytes) → IsSizeText text → (n : ℕ) × (size_of text ≡ some n) × (n < 2 ^ 64)
unfolding parse_positive_size_or_zero
size_of-IsSizeText none h = (0, refl, omega arith)
size_of-IsSizeText (some []) h = (0, refl, omega arith)
size_of-IsSizeText (some (c ∷ cs)) h = elim (Bool-cases (all_digits (c ∷ cs))) [
  | inl e ↦ (digits_value 0 (c ∷ cs), rw e (in_range (digits_value 0 (c ∷ cs)) (h e)), h e)
  | inr e ↦ (0, rw e refl, omega arith)
]

-- With a default of 32 bits, a count of consumers of 32 bits and a configured size that, when it is
-- digits, is below 2 ^ 64, a capacity of the ring is resolved; it is a positive number of 32 bits and
-- no less than the count of consumers.
pub resolve_shm_ring_consumer_capacity_lem :
    (entry : ChannelTopologyEntry) (slots : ℕ)
    → slots < 2 ^ 32
    → entry.consumer_count < 2 ^ 32
    → IsSizeText (find shm_consumer_slots_key entry.params)
    → (capacity : ℕ) × (resolve_shm_ring_consumer_capacity (some entry) slots ≡ some capacity)
      × (1 ≤ capacity)
      × (capacity < 2 ^ 32)
      × (entry.consumer_count ≤ capacity)
unfolding resolve_shm_ring_consumer_capacity
resolve_shm_ring_consumer_capacity_lem entry slots hs hc ht =
    let (n, e, small) = size_of-IsSizeText (find shm_consumer_slots_key entry.params) ht in
    rw e (
      if entry.consumer_count == 0
          then if ltb 0 n && leb n max_uint32 then n else max 1 slots
          else max (if ltb 0 n && leb n max_uint32 then n else max 1 slots)
              (entry.consumer_count % 2 ^ 32),
      ground arith,
      ground arith,
      ground arith,
      ground arith,
    )

-- With a default of 32 bits and a configured size that, when it is digits, is below 2 ^ 64, a count of
-- slots is resolved, and it is a positive number of 32 bits.
pub resolve_shm_slot_count_for_channel_lem :
    (entry : ChannelTopologyEntry) (count : ℕ)
    → count < 2 ^ 32
    → IsSizeText (find shm_slot_count_key entry.params)
    → (slots : ℕ) × (resolve_shm_slot_count_for_channel (some entry) count ≡ some slots)
      × (1 ≤ slots)
      × (slots < 2 ^ 32)
unfolding resolve_shm_slot_count_for_channel
resolve_shm_slot_count_for_channel_lem entry count hc ht =
    let (n, e, small) = size_of-IsSizeText (find shm_slot_count_key entry.params) ht in
    rw e (if ltb 0 n && leb n max_uint32 then n else max 1 count, refl, ground arith, ground arith)

-- No underscore in a name.
abbrev pub is_plain : Bytes → Bool
is_plain [] = true
is_plain (c ∷ cs) = not (c == b'_') && is_plain cs

abbrev first_name : List Bytes → List Bytes → Option Bytes
first_name (p ∷ ps) consumers = some p
first_name [] (c ∷ cs) = some c
first_name [] [] = none

-- The module whose name stands in the key.
abbrev pub primary_module : ChannelTopologyEntry → Option Bytes
primary_module entry = first_name entry.producers entry.consumers

abbrev value_of : Option Bytes → Bytes
value_of none = []
value_of (some v) = v

abbrev tail : Bytes → Bytes
tail [] = []
tail (c ∷ cs) = cs

abbrev first_byte : Bytes → ℕ
first_byte [] = 0
first_byte (c ∷ cs) = c

separated :
    (a b c d : Bytes)
    → is_plain a ≡ true
    → is_plain b ≡ true
    → a ++ separator ++ c ≡ b ++ separator ++ d
    → (a ≡ b) × (c ≡ d)
separated [] [] c d ha hb h = (refl, ap tail (ap tail h))
separated [] (y ∷ b) c d ha hb h = let first : b'_' ≡ y = ap first_byte h in ground arith
separated (x ∷ a) [] c d ha hb h = let first : x ≡ b'_' = ap first_byte h in ground arith
separated (x ∷ a) (y ∷ b) c d ha hb h =
    let first : x ≡ y = ap first_byte h in
    let (same, rest) = separated a b c d (ground arith) (ground arith) (ap tail h) in (cc, rest)

canonical_shm_channel_key-primary :
    (entry : ChannelTopologyEntry) {name : Bytes}
    → primary_module entry ≡ some name
    → canonical_shm_channel_key entry ≡ name ++ separator ++ entry.channel
unfolding canonical_shm_channel_key
canonical_shm_channel_key-primary entry h = by_names entry.producers entry.consumers h
  where
    by_names :
        (producers consumers : List Bytes) {name : Bytes}
        → first_name producers consumers ≡ some name
        → key_of_names producers consumers entry.channel ≡ name ++ separator ++ entry.channel
    by_names (p ∷ ps) consumers h = ap (λ o. value_of o ++ separator ++ entry.channel) h
    by_names [] (c ∷ cs) h = ap (λ o. value_of o ++ separator ++ entry.channel) h
    by_names [] [] h = cc

-- Two entries with primary modules whose names have no underscore have the same shared-memory name
-- only when the modules and the channels are the same.
pub canonical_shm_channel_key_lem :
    (entry other : ChannelTopologyEntry) (name other_name : Bytes)
    → primary_module entry ≡ some name
    → primary_module other ≡ some other_name
    → is_plain name ≡ true
    → is_plain other_name ≡ true
    → canonical_shm_channel_key entry ≡ canonical_shm_channel_key other
    → (name ≡ other_name) × (entry.channel ≡ other.channel)
canonical_shm_channel_key_lem entry other name other_name h1 h2 plain1 plain2 same =
    separated name other_name entry.channel other.channel plain1 plain2 (
      sym (canonical_shm_channel_key-primary entry h1)
      ∙ same
      ∙ canonical_shm_channel_key-primary other h2)
