-- ===== src/Config/Topology/Proto.antt =====
-- The names of payload types, and the check of the field numbers of a protobuf text.
use mould_system_backend.Common.{
  ℕ, Bool, true, false, not, ◌||◌, Bytes, bytes_eq, is_empty, Option, none, some, List, [], ◌∷◌,
  ◌++◌, ◌^◌, ◌==◌, ltb, if◌then◌else◌, take, drop, Checked, done, refused, ◌>>=◌, require,
}
use mould_system_backend.Config.Decimal.{is_digit, skip_spaces, span_digits, digits_value}
use mould_system_backend.Config.Streams.{getline_all}
use mould_system_backend.Config.Topology.{ChannelPayloadType, unknown, protobuf, image, binary_blob}
use mould_system_backend.Config.Topology.Resolve.{all_digits}
use mould_system_backend.Config.Topology.Files.Lines.{trim}

-- "protobuf", "image", "binary", "unknown"
unfoldable pub channel_payload_type_name : ChannelPayloadType → Bytes
channel_payload_type_name protobuf = b'p' ∷ b'r' ∷ b'o' ∷ b't' ∷ b'o' ∷ b'b' ∷ b'u' ∷ b'f' ∷ []
channel_payload_type_name image = b'i' ∷ b'm' ∷ b'a' ∷ b'g' ∷ b'e' ∷ []
channel_payload_type_name binary_blob = b'b' ∷ b'i' ∷ b'n' ∷ b'a' ∷ b'r' ∷ b'y' ∷ []
channel_payload_type_name unknown = b'u' ∷ b'n' ∷ b'k' ∷ b'n' ∷ b'o' ∷ b'w' ∷ b'n' ∷ []

-- `out_of_range` is the exception of `std::stoll`, which nothing catches.
pub data ProtoError : Type 0 where
  reuses_reserved : ℕ → ProtoError
  out_of_range : ProtoError

-- `std::stoll` of digits.
abbrev pub stoll_digits : Bytes → Checked ProtoError ℕ
stoll_digits digits =
    if ltb (digits_value 0 digits) (2 ^ 63)
    then done (digits_value 0 digits)
    else refused out_of_range

-- A token without a semicolon at its end.
abbrev pub without_semicolon : Bytes → Bytes
without_semicolon [] = []
without_semicolon (c ∷ []) = if c == b';' then [] else c ∷ []
without_semicolon (c ∷ d ∷ cs) = c ∷ without_semicolon (d ∷ cs)

-- The numbers of the tokens that are digits.
unfoldable pub reserved_tokens : List Bytes → Checked ProtoError (List ℕ)
unfolding trim is_digit digits_value
reserved_tokens [] = done []
reserved_tokens (token ∷ tokens) =
    let t = without_semicolon (trim token) in
    if is_empty t || not (all_digits t)
    then reserved_tokens tokens
    else stoll_digits t >>= λ n. reserved_tokens tokens >>= λ ns. done (n ∷ ns)

-- What stands behind the first `=`.
unfoldable pub after_equals : Bytes → Option Bytes
after_equals [] = none
after_equals (c ∷ cs) = let rest = after_equals cs in if c == b'=' then some cs else rest

abbrev pub number_of : Bytes → Checked ProtoError (Option ℕ)
number_of [] = done none
number_of (d ∷ ds) = stoll_digits (d ∷ ds) >>= λ n. done (some n)

-- The number of a field, on a line with an `=`.
unfoldable pub field_number : Option Bytes → Checked ProtoError (Option ℕ)
unfolding skip_spaces span_digits digits_value
field_number none = done none
field_number (some behind) = number_of (span_digits (skip_spaces behind)).0

-- "reserved "
abbrev pub reserved_word : Bytes
reserved_word = b'r' ∷ b'e' ∷ b's' ∷ b'e' ∷ b'r' ∷ b'v' ∷ b'e' ∷ b'd' ∷ b' ' ∷ []

abbrev pub is_reserved_line : Bytes → Bool
is_reserved_line line = bytes_eq (take 9 line) reserved_word

abbrev pub mem_nat : ℕ → List ℕ → Bool
mem_nat n [] = false
mem_nat n (m ∷ ms) = m == n || mem_nat n ms

abbrev pub is_free : List ℕ → Option ℕ → Bool
is_free reserved none = true
is_free reserved (some n) = not (mem_nat n reserved)

abbrev pub number_or_zero : Option ℕ → ℕ
number_or_zero none = 0
number_or_zero (some n) = n

-- One trimmed line: the reserved numbers behind it.
unfoldable pub check_line : Bytes → List ℕ → Checked ProtoError (List ℕ)
unfolding reserved_tokens after_equals field_number getline_all
check_line line reserved = elim (is_reserved_line line) [
  | true ↦ reserved_tokens (getline_all b',' (drop 9 line)) >>= λ ns. done (ns ++ reserved)
  | false ↦ field_number (after_equals line) >>= λ n.
      require (is_free reserved n) (reuses_reserved (number_or_zero n)) >>= λ _. done reserved
]

unfoldable pub check_lines : List Bytes → List ℕ → Checked ProtoError (List ℕ)
unfolding check_line trim
check_lines [] reserved = done reserved
check_lines (line ∷ lines) reserved = check_line (trim line) reserved >>= check_lines lines

unfoldable pub validate_proto_reserved_field_numbers : Bytes → Checked ProtoError (List ℕ)
unfolding check_lines getline_all
validate_proto_reserved_field_numbers proto_text = check_lines (getline_all b'\n' proto_text) []
