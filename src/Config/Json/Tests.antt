-- ===== src/Config/Json/Tests.antt =====
-- Reading and printing on small texts.
use mould_system_backend.Common.{negsuc, false, Bytes, [], ◌∷◌, ◌≡◌, ◌≢◌, refl, arith}
use mould_system_backend.Config.Decimal.{
  stoll, skip_spaces, stoll_signed, span_digits, digits_value, is_digit, is_space,
}
use mould_system_backend.Config.Json.Tree.{
  JValue, null, integral, text, object, array, no_members, member, no_items, item, ok, failed,
  out_of_fuel, invalid_number, duplicate_key,
}
use mould_system_backend.Config.Json.Reader.{
  Numbers, parse_document, parse_value, parse_members, parse_number, parse_string, parse_key,
  scan_string, number_token, start_of, next_of, expect, ws, is_ws,
}
use mould_system_backend.Config.Json.Printer.{print_value}
use mould_system_backend.Config.Json.RoundTrip.{parse_document-print_value}
use mould_system_backend.Config.Json.Total.{parse_document-ends}

abbrev strict_numbers : Numbers
strict_numbers = record { stod_converts = λ token. false; conversion_error = invalid_number }

-- {"a":[-12,"\""],"b":null}
abbrev value : JValue
value = object (
    member (b'a' ∷ []) (array (item (integral (negsuc 11)) (item (text (b'"' ∷ [])) no_items)))
      (member (b'b' ∷ []) null no_members))

parse_document-print_value_example : parse_document strict_numbers (print_value value) ≡ ok value []
parse_document-print_value_example =
    parse_document-print_value strict_numbers value (refl, (omega arith, (tt, tt)), (refl, tt, tt))
      ((tt, (tt, tt)), (tt, tt))

abbrev repeated : Bytes
repeated =
    b'{' ∷ b'"' ∷ b'a' ∷ b'"' ∷ b':' ∷ b'1' ∷ b',' ∷ b'"' ∷ b'a' ∷ b'"' ∷ b':' ∷ b'2' ∷ b'}' ∷ []

parse_document-ends_example : parse_document strict_numbers repeated ≢ out_of_fuel
parse_document-ends_example = parse_document-ends strict_numbers repeated

repeated_key : parse_document strict_numbers repeated ≡ failed (duplicate_key (b'a' ∷ []))
unfolding parse_document parse_value parse_members parse_number parse_key parse_string scan_string
    number_token start_of next_of expect ws is_ws stoll skip_spaces stoll_signed span_digits
    digits_value is_digit is_space
repeated_key = refl
