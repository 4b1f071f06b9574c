-- ===== src/Config/Topology/Resolve.antt =====
-- The sizes, the delivery mode and the shared-memory name of a channel.
use mould_system_backend.Common.{
  ℕ, Bool, true, ◌&&◌, Bytes, bytes_eq, is_empty, Option, none, some, List, [], ◌∷◌, ◌++◌, ◌-◌, ◌%◌,
  ◌^◌, max, if◌then◌else◌, find, ltb, leb, ◌==◌,
}
use mould_system_backend.Config.Decimal.{is_digit, digits_value}
use mould_system_backend.Config.Topology.{
  ChannelTopologyEntry, ShmBusDeliveryMode, broadcast, compete,
}
use mould_system_backend.Config.Topology.Build.{delivery_mode_key, to_lower_ascii, compete_name}

abbrev pub all_digits : Bytes → Bool
all_digits [] = true
all_digits (c ∷ cs) = is_digit c && all_digits cs

-- `std::stoull` of digits; `none` is the exception for a value outside 64 bits.
abbrev pub stoull_digits : Bytes → Option ℕ
stoull_digits value =
    if ltb (digits_value 0 value) (2 ^ 64) then some (digits_value 0 value) else none

unfoldable pub parse_positive_size_or_zero : Bytes → Option ℕ
unfolding digits_value is_digit
parse_positive_size_or_zero [] = some 0
parse_positive_size_or_zero (c ∷ cs) =
    if all_digits (c ∷ cs) then stoull_digits (c ∷ cs) else some 0

abbrev pub max_uint32 : ℕ
max_uint32 = 2 ^ 32 - 1

abbrev pub shm_consumer_slots_key : Bytes
shm_consumer_slots_key =
    b's' ∷ b'h' ∷ b'm' ∷ b'_' ∷ b'c' ∷ b'o' ∷ b'n' ∷ b's' ∷ b'u' ∷ b'm' ∷ b'e' ∷ b'r' ∷ b'_' ∷ b's'
    ∷ b'l' ∷ b'o' ∷ b't' ∷ b's' ∷ []

abbrev pub slot_payload_bytes_key : Bytes
slot_payload_bytes_key =
    b's' ∷ b'l' ∷ b'o' ∷ b't' ∷ b'_' ∷ b'p' ∷ b'a' ∷ b'y' ∷ b'l' ∷ b'o' ∷ b'a' ∷ b'd' ∷ b'_' ∷ b'b'
    ∷ b'y' ∷ b't' ∷ b'e' ∷ b's' ∷ []

abbrev pub shm_slot_count_key : Bytes
shm_slot_count_key =
    b's' ∷ b'h' ∷ b'm' ∷ b'_' ∷ b's' ∷ b'l' ∷ b'o' ∷ b't' ∷ b'_' ∷ b'c' ∷ b'o' ∷ b'u' ∷ b'n' ∷ b't'
    ∷ []

-- The text of a parameter as a size: 0 where the parameter is missing.
abbrev pub size_of : Option Bytes → Option ℕ
size_of none = some 0
size_of (some text) = parse_positive_size_or_zero text

-- A configured size when it is positive and at most the limit; otherwise the default.
abbrev pub chosen_size : ℕ → ℕ → Option ℕ → Option ℕ
chosen_size limit resolved none = none
chosen_size limit resolved (some n) = some (if ltb 0 n && leb n limit then n else resolved)

abbrev pub at_least_consumers : ℕ → Option ℕ → Option ℕ
at_least_consumers count none = none
at_least_consumers count (some n) = some (if count == 0 then n else max n (count % 2 ^ 32))

unfoldable pub resolve_shm_ring_consumer_capacity : Option ChannelTopologyEntry → ℕ → Option ℕ
unfolding parse_positive_size_or_zero
resolve_shm_ring_consumer_capacity none slots = some (max 1 slots)
resolve_shm_ring_consumer_capacity (some entry) slots =
    at_least_consumers entry.consumer_count
      (chosen_size max_uint32 (max 1 slots) (size_of (find shm_consumer_slots_key entry.params)))

-- A size of 64 bits has no limit below `std::size_t`.
abbrev pub positive_size : ℕ → Option ℕ → Option ℕ
positive_size resolved none = none
positive_size resolved (some n) = some (if ltb 0 n then n else resolved)

unfoldable pub resolve_slot_payload_bytes_for_channel : Option ChannelTopologyEntry → ℕ → Option ℕ
unfolding parse_positive_size_or_zero
resolve_slot_payload_bytes_for_channel none bytes = some (max 1 bytes)
resolve_slot_payload_bytes_for_channel (some entry) bytes =
    positive_size (max 1 bytes) (size_of (find slot_payload_bytes_key entry.params))

unfoldable pub resolve_shm_slot_count_for_channel : Option ChannelTopologyEntry → ℕ → Option ℕ
unfolding parse_positive_size_or_zero
resolve_shm_slot_count_for_channel none count = some (max 1 count)
resolve_shm_slot_count_for_channel (some entry) count =
    chosen_size max_uint32 (max 1 count) (size_of (find shm_slot_count_key entry.params))

abbrev pub mode_of : Option Bytes → ShmBusDeliveryMode
mode_of none = broadcast
mode_of (some value) =
    if is_empty value
    then broadcast
    else if bytes_eq (to_lower_ascii value) compete_name
    then compete
    else broadcast

unfoldable pub resolve_shm_bus_delivery_mode_for_channel :
    Option ChannelTopologyEntry → ShmBusDeliveryMode
resolve_shm_bus_delivery_mode_for_channel none = broadcast
resolve_shm_bus_delivery_mode_for_channel (some entry) =
    mode_of (find delivery_mode_key entry.params)

-- "__"
abbrev pub separator : Bytes
separator = b'_' ∷ b'_' ∷ []

abbrev pub key_of_names : List Bytes → List Bytes → Bytes → Bytes
key_of_names (p ∷ ps) consumers channel = p ++ separator ++ channel
key_of_names [] (c ∷ cs) channel = c ++ separator ++ channel
key_of_names [] [] channel = channel

unfoldable pub canonical_shm_channel_key : ChannelTopologyEntry → Bytes
canonical_shm_channel_key entry = key_of_names entry.producers entry.consumers entry.channel
