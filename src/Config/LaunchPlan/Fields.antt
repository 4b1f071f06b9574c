-- ===== src/Config/LaunchPlan/Fields.antt =====
-- The names of a launch plan's fields, and the scalars that all modules share.
use mould_system_backend.Common.{
  Bool, true, false, not, ◌||◌, Bytes, bytes_eq, Option, none, some, [], ◌∷◌, if◌then◌else◌, Dict,
  find, emplace, mem_bytes, Checked, done, ◌>>=◌, require,
}
use mould_system_backend.Config.Json.Tree.{JValue, JObject, integral, no_members, member}
use mould_system_backend.Config.LaunchPlan.{
  LaunchPlanScalar, text_scalar, int_scalar, real_scalar, bool_scalar, Doubles, PlanError,
  scalars_not_object, integer_required, scalar_conflict,
}
use mould_system_backend.Config.LaunchPlan.Scalars.{scalar_from_json_leaf}
use mould_system_backend.Config.LaunchPlan.CpuSet.{same_int}
use mould_system_backend.Config.LaunchPlan.Resource.{
  startup_priority_key, cpu_set_key, cpu_id_key, restart_backoff_ms_key, restart_max_retries_key,
  restart_window_ms_key, restart_fuse_ms_key, ready_timeout_ms_key,
}
use mould_system_backend.Config.LaunchPlan.Io.{members_or}

abbrev pub modules_key : Bytes
modules_key = b'm' ∷ b'o' ∷ b'd' ∷ b'u' ∷ b'l' ∷ b'e' ∷ b's' ∷ []

abbrev pub minloglevel_key : Bytes
minloglevel_key = b'm' ∷ b'i' ∷ b'n' ∷ b'l' ∷ b'o' ∷ b'g' ∷ b'l' ∷ b'e' ∷ b'v' ∷ b'e' ∷ b'l' ∷ []

abbrev pub communication_key : Bytes
communication_key =
    b'c' ∷ b'o' ∷ b'm' ∷ b'm' ∷ b'u' ∷ b'n' ∷ b'i' ∷ b'c' ∷ b'a' ∷ b't' ∷ b'i' ∷ b'o' ∷ b'n' ∷ []

abbrev pub shm_slot_count_field : Bytes
shm_slot_count_field =
    b's' ∷ b'h' ∷ b'm' ∷ b'_' ∷ b's' ∷ b'l' ∷ b'o' ∷ b't' ∷ b'_' ∷ b'c' ∷ b'o' ∷ b'u' ∷ b'n' ∷ b't'
    ∷ []

abbrev pub slot_payload_bytes_field : Bytes
slot_payload_bytes_field =
    b's' ∷ b'l' ∷ b'o' ∷ b't' ∷ b'_' ∷ b'p' ∷ b'a' ∷ b'y' ∷ b'l' ∷ b'o' ∷ b'a' ∷ b'd' ∷ b'_' ∷ b'b'
    ∷ b'y' ∷ b't' ∷ b'e' ∷ b's' ∷ []

abbrev pub module_name_key : Bytes
module_name_key = b'm' ∷ b'o' ∷ b'd' ∷ b'u' ∷ b'l' ∷ b'e' ∷ b'_' ∷ b'n' ∷ b'a' ∷ b'm' ∷ b'e' ∷ []

abbrev pub resource_key : Bytes
resource_key = b'r' ∷ b'e' ∷ b's' ∷ b'o' ∷ b'u' ∷ b'r' ∷ b'c' ∷ b'e' ∷ []

abbrev pub module_params_key : Bytes
module_params_key =
    b'm' ∷ b'o' ∷ b'd' ∷ b'u' ∷ b'l' ∷ b'e' ∷ b'_' ∷ b'p' ∷ b'a' ∷ b'r' ∷ b'a' ∷ b'm' ∷ b's' ∷ []

abbrev pub io_path_key : Bytes
io_path_key =
    b'i' ∷ b'o' ∷ b'_' ∷ b'c' ∷ b'h' ∷ b'a' ∷ b'n' ∷ b'n' ∷ b'e' ∷ b'l' ∷ b's' ∷ b'_' ∷ b'c' ∷ b'o'
    ∷ b'n' ∷ b'f' ∷ b'i' ∷ b'g' ∷ b'_' ∷ b'p' ∷ b'a' ∷ b't' ∷ b'h' ∷ []

abbrev pub typecheck_key : Bytes
typecheck_key =
    b't' ∷ b'e' ∷ b's' ∷ b't' ∷ b'_' ∷ b't' ∷ b'y' ∷ b'p' ∷ b'e' ∷ b'c' ∷ b'h' ∷ b'e' ∷ b'c' ∷ b'k'
    ∷ b'_' ∷ b'i' ∷ b'n' ∷ b't' ∷ []

unfoldable pub json_key_requires_integral_value : Bytes → Bool
json_key_requires_integral_value key = bytes_eq key typecheck_key

abbrev pub is_integral : JValue → Bool
is_integral (integral i) = true
is_integral _ = false

unfoldable pub parse_scalars :
    JObject → Dict LaunchPlanScalar → Checked PlanError (Dict LaunchPlanScalar)
unfolding json_key_requires_integral_value scalar_from_json_leaf
parse_scalars no_members out = done out
parse_scalars (member key v rest) out =
    require (not (json_key_requires_integral_value key) || is_integral v) (integer_required key)
    >>= λ _. scalar_from_json_leaf v >>= λ scalar. parse_scalars rest (emplace key scalar out)

unfoldable pub parse_string_map_scalars : Bytes → JValue → Checked PlanError (Dict LaunchPlanScalar)
unfolding parse_scalars
parse_string_map_scalars field node =
    members_or (scalars_not_object field) node >>= λ o. parse_scalars o []

-- Keys of the schema of one module, which may differ from module to module.
unfoldable pub is_per_module_resource_schema_key : Bytes → Bool
is_per_module_resource_schema_key key = mem_bytes key (
    startup_priority_key ∷ cpu_set_key ∷ cpu_id_key ∷ restart_backoff_ms_key
    ∷ restart_max_retries_key ∷ restart_window_ms_key ∷ restart_fuse_ms_key ∷ ready_timeout_ms_key
    ∷ [])

unfoldable pub scalars_equal_for_merge : Doubles → LaunchPlanScalar → LaunchPlanScalar → Bool
scalars_equal_for_merge doubles (text_scalar a) (text_scalar b) = bytes_eq a b
scalars_equal_for_merge doubles (int_scalar a) (int_scalar b) = same_int a b
scalars_equal_for_merge doubles (bool_scalar a) (bool_scalar b) = if a then b else not b
scalars_equal_for_merge doubles (real_scalar a) (real_scalar b) =
    doubles.nearly_equal (real_scalar a) (real_scalar b)
scalars_equal_for_merge doubles (real_scalar a) (int_scalar b) =
    doubles.nearly_equal (real_scalar a) (int_scalar b)
scalars_equal_for_merge doubles (int_scalar a) (real_scalar b) =
    doubles.nearly_equal (int_scalar a) (real_scalar b)
scalars_equal_for_merge doubles _ _ = false

abbrev pub agrees : Doubles → Option LaunchPlanScalar → LaunchPlanScalar → Bool
agrees doubles none value = true
agrees doubles (some w) value = scalars_equal_for_merge doubles w value

unfoldable pub record_global_scalar :
    Doubles
    → Bytes
    → LaunchPlanScalar
    → Dict LaunchPlanScalar
    → Checked PlanError (Dict LaunchPlanScalar)
unfolding scalars_equal_for_merge
record_global_scalar doubles key value global =
    require (agrees doubles (find key global) value) (scalar_conflict key) >>= λ _.
    done (emplace key value global)

-- The scalars of one map, without those that the flag says to skip.
unfoldable pub record_global_scalars :
    Doubles
    → (Bytes → Bool)
    → Dict LaunchPlanScalar
    → Dict LaunchPlanScalar
    → Checked PlanError (Dict LaunchPlanScalar)
unfolding record_global_scalar
record_global_scalars doubles skipped [] global = done global
record_global_scalars doubles skipped ((key, value) ∷ rest) global =
    (if skipped key then done global else record_global_scalar doubles key value global)
    >>= record_global_scalars doubles skipped rest
