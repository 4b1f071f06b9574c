-- ===== src/Gate/Validator.antt =====
-- gate/handler/request_validator.hpp: what an upload must have. Characters are compared as bytes; one
-- behind the end of a string is the zero byte, as `operator[]` gives it.
use mould_system_backend.Common.{
  ℕ, Bool, true, false, not, ◌&&◌, ◌||◌, Bytes, bytes_eq, is_empty, List, [], ◌∷◌, ◌++◌, ◌==◌, ltb,
  leb, if◌then◌else◌, length, drop, get_or,
}

pub data Field : Type 0 where
  node_id capture_time image_data : Field

unfoldable pub validate_field_length : ℕ → Bytes → Bool
validate_field_length max_field_length value = leb (length value) max_field_length

abbrev pub char_at : Bytes → ℕ → ℕ
char_at s i = get_or s i 0

unfoldable pub check_digit : ℕ → Bool
check_digit c = leb b'0' c && leb c b'9'

unfoldable pub has_separators : Bytes → Bool
has_separators t =
    char_at t 4 == b'-'
    && char_at t 7 == b'-'
    && char_at t 10 == b'T'
    && char_at t 13 == b':'
    && char_at t 16 == b':'

unfoldable pub has_digits : Bytes → Bool
unfolding check_digit
has_digits t =
    check_digit (char_at t 0)
    && check_digit (char_at t 1)
    && check_digit (char_at t 2)
    && check_digit (char_at t 3)
    && check_digit (char_at t 5)
    && check_digit (char_at t 6)
    && check_digit (char_at t 8)
    && check_digit (char_at t 9)
    && check_digit (char_at t 11)
    && check_digit (char_at t 12)
    && check_digit (char_at t 14)
    && check_digit (char_at t 15)
    && check_digit (char_at t 17)
    && check_digit (char_at t 18)

-- From here on `pos` is the rest of the string behind it.
unfoldable pub skip_digits : Bytes → Bytes
unfolding check_digit
skip_digits [] = []
skip_digits (c ∷ cs) = let rest = skip_digits cs in if check_digit c then rest else c ∷ cs

unfoldable pub skip_fraction : Bytes → Bytes
unfolding skip_digits
skip_fraction [] = []
skip_fraction (c ∷ cs) = if c == b'.' then skip_digits cs else c ∷ cs

unfoldable pub valid_offset : Bytes → Bool
unfolding check_digit
valid_offset rest =
    leb 5 (length rest)
    && check_digit (char_at rest 0)
    && check_digit (char_at rest 1)
    && char_at rest 2 == b':'
    && check_digit (char_at rest 3)
    && check_digit (char_at rest 4)
    && is_empty (drop 5 rest)

unfoldable pub valid_zone : Bytes → Bool
unfolding valid_offset
valid_zone [] = false
valid_zone (c ∷ rest) =
    if c == b'Z' then is_empty rest else if c == b'+' || c == b'-' then valid_offset rest else false

unfoldable pub validate_capture_time_format : Bytes → Bool
unfolding has_separators has_digits skip_fraction valid_zone
validate_capture_time_format t =
    if ltb (length t) 20
    then false
    else has_separators t && has_digits t && valid_zone (skip_fraction (drop 19 t))

pub data ImageFormat : Type 0 where
  unrecognized jpeg png bmp : ImageFormat

unfoldable pub detect_format : Bytes → ImageFormat
detect_format data_bytes =
    if leb 3 (length data_bytes)
      && char_at data_bytes 0 == 255
      && char_at data_bytes 1 == 216
      && char_at data_bytes 2 == 255
    then jpeg
    else if leb 4 (length data_bytes)
        && char_at data_bytes 0 == 137
        && char_at data_bytes 1 == b'P'
        && char_at data_bytes 2 == b'N'
        && char_at data_bytes 3 == b'G'
    then png
    else if leb 2 (length data_bytes) && char_at data_bytes 0 == 66 && char_at data_bytes 1 == 77
    then bmp
    else unrecognized

abbrev pub format_name : ImageFormat → Bytes
format_name unrecognized = []
format_name jpeg = b'j' ∷ b'p' ∷ b'e' ∷ b'g' ∷ []
format_name png = b'p' ∷ b'n' ∷ b'g' ∷ []
format_name bmp = b'b' ∷ b'm' ∷ b'p' ∷ []

pub data ImageError : Type 0 where
  image_ok empty_image unknown_magic : ImageError
  format_mismatch : Bytes → ImageFormat → ImageError

unfoldable pub validate_image_magic_bytes : Bytes → Bytes → ImageError
unfolding detect_format
validate_image_magic_bytes image image_format =
    if is_empty image then empty_image else elim (detect_format image) [
      | unrecognized ↦ unknown_magic
      | detected ↦
          (if bytes_eq (format_name detected) image_format
            then image_ok
            else format_mismatch image_format detected)
    ]

-- The texts of `error_message`.
pub data ValidationError : Type 0 where
  no_error missing_required_fields field_too_long invalid_capture_time : ValidationError
  bad_image : ImageError → ValidationError

pub record ValidationResult : Type 0 where
  pub valid : Bool
  pub missing_fields : List Field
  pub invalid_fields : List Field
  pub image_format_error : ImageError
  pub http_status_code : ℕ
  pub error_message : ValidationError

abbrev rejected : ℕ → List Field → List Field → ImageError → ValidationError → ValidationResult
rejected status missing invalid image_error message = record {
  valid = false;
  missing_fields = missing;
  invalid_fields = invalid;
  image_format_error = image_error;
  http_status_code = status;
  error_message = message;
}

abbrev accepted : ValidationResult
accepted = record {
  valid = true;
  missing_fields = [];
  invalid_fields = [];
  image_format_error = image_ok;
  http_status_code = 200;
  error_message = no_error;
}

abbrev pub listed : Bool → Field → List Field
listed b field = if b then field ∷ [] else []

abbrev no_fields : List Field → Bool
no_fields [] = true
no_fields (f ∷ fs) = false

abbrev image_verdict : ImageError → ValidationResult
image_verdict image_ok = accepted
image_verdict e = rejected 415 [] (image_data ∷ []) e (bad_image e)

-- The stages of `Validate` on the outcomes of its checks: which of the three fields are empty, whether
-- the lengths of two are in bounds, whether the time has the format, whether no image format is
-- declared, and what the check of the image says.
abbrev verdict : Bool → Bool → Bool → Bool → Bool → Bool → Bool → ImageError → ValidationResult
verdict no_node no_time no_image node_fits time_fits time_ok no_format image_error =
    let missing =
      listed no_node node_id ++ listed no_time capture_time ++ listed no_image image_data in
    let long = listed (not node_fits) node_id ++ listed (not time_fits) capture_time in
    if not (no_fields missing)
    then rejected 422 missing [] image_ok missing_required_fields
    else if not (no_fields long)
    then rejected 422 [] long image_ok field_too_long
    else if not time_ok
    then rejected 422 [] (capture_time ∷ []) image_ok invalid_capture_time
    else if no_format
    then accepted
    else image_verdict image_error

unfoldable pub validate : ℕ → Bytes → Bytes → Bytes → Bytes → ValidationResult
unfolding validate_field_length validate_capture_time_format validate_image_magic_bytes
validate max_length node time image image_format =
    verdict (is_empty node) (is_empty time) (is_empty image) (validate_field_length max_length node)
      (validate_field_length max_length time) (validate_capture_time_format time)
      (is_empty image_format) (validate_image_magic_bytes image image_format)

abbrev pub all_in_order : Bool → Bool → Bool → Bool → Bool → Bool → Bool
all_in_order no_node no_time no_image node_fits time_fits time_ok =
    not no_node && not no_time && not no_image && node_fits && time_fits && time_ok
