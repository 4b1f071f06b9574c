-- ===== src/Config/LaunchPlan/Scalars.antt =====
-- Scalars from JSON, as text and as integers.
use mould_system_backend.Common.{
  ℤ, Bytes, Option, none, some, [], ◌∷◌, if◌then◌else◌, Checked, done, refused,
}
use mould_system_backend.Config.Decimal.{to_string, stoll}
use mould_system_backend.Config.Json.Tree.{
  JValue, null, boolean, integral, real, text, object, array,
}
use mould_system_backend.Config.Json.Reader.{true_word, false_word}
use mould_system_backend.Config.LaunchPlan.{
  LaunchPlanScalar, text_scalar, int_scalar, real_scalar, bool_scalar, Doubles, PlanError,
  null_scalar, not_scalar, not_integer, empty_integer_text, not_integer_text,
}

unfoldable pub scalar_to_assignment_string : Doubles → LaunchPlanScalar → Bytes
unfolding to_string
scalar_to_assignment_string doubles (text_scalar s) = s
scalar_to_assignment_string doubles (int_scalar i) = to_string i
scalar_to_assignment_string doubles (real_scalar t) = doubles.print_real t
scalar_to_assignment_string doubles (bool_scalar b) = if b then true_word else false_word

unfoldable pub scalar_from_json_leaf : JValue → Checked PlanError LaunchPlanScalar
scalar_from_json_leaf (text s) = done (text_scalar s)
scalar_from_json_leaf (boolean b) = done (bool_scalar b)
scalar_from_json_leaf (integral i) = done (int_scalar i)
scalar_from_json_leaf (real t) = done (real_scalar t)
scalar_from_json_leaf null = refused null_scalar
scalar_from_json_leaf (object o) = refused not_scalar
scalar_from_json_leaf (array a) = refused not_scalar

-- The whole text must be the number.
abbrev pub whole_number : Option (ℤ × Bytes) → Checked PlanError ℤ
whole_number none = refused not_integer_text
whole_number (some (i, [])) = done i
whole_number (some (i, c ∷ cs)) = refused not_integer_text

abbrev pub whole_real : Option ℤ → Checked PlanError ℤ
whole_real none = refused not_integer
whole_real (some i) = done i

unfoldable pub try_extract_int64 : Doubles → LaunchPlanScalar → Checked PlanError ℤ
unfolding stoll
try_extract_int64 doubles (int_scalar i) = done i
try_extract_int64 doubles (real_scalar t) = whole_real (doubles.to_int64 t)
try_extract_int64 doubles (text_scalar []) = refused empty_integer_text
try_extract_int64 doubles (text_scalar (c ∷ cs)) = whole_number (stoll (c ∷ cs))
try_extract_int64 doubles (bool_scalar b) = refused not_integer
