-- ===== src/Config/LaunchPlan/Tests.antt =====
-- A launch plan of two modules with one channel between them.
use mould_system_backend.Common.{
  ℕ, pos, true, false, if◌then◌else◌, Bytes, bytes_eq, bytes_eq→eq, Option, none, some, [], ◌∷◌,
  ◌++◌, ◌≡◌, refl, sym, ap, arith, ◌∙◌, ◌⊎◌, ◌≢◌, str_eq, find, assign, emplace, done, String,
  Bool-cases, inl, inr, mem_bytes,
}
use mould_system_backend.Launch.Registry.{
  Registry, registered_names, AllCreate, accepted_plan-AllCreate,
}
use mould_system_backend.Supervisor.Startup.{validate_single_module_per_process_invariant}
use mould_system_backend.Config.Decimal.{
  to_string, digits_of, stoll, skip_spaces, stoll_signed, span_digits, digits_value, is_digit,
  is_space,
}
use mould_system_backend.Config.Streams.{getline_all}
use mould_system_backend.Config.Json.Tree.{find_object_key}
use mould_system_backend.Config.Json.Reader.{
  parse_document, parse_value, parse_members, parse_items, parse_number, parse_string, parse_key,
  parse_bool, parse_null, scan_string, unescape, number_token, start_of, next_of, expect, ws, is_ws,
}
use mould_system_backend.Config.Topology.{ChannelEndpointConfig, ChannelTopologyEntry}
use mould_system_backend.Config.Topology.Build.{
  build_channel_topology_index, merge_modules, merge_module, merge_endpoints, merge_endpoint,
  merge_params, merge_param, check_entries, check_entry, sort_names, insert_name, string_less,
  validate_channel_schema_governance, resolve_channel_payload_type, parse_channel_payload_type,
  param_or_empty, is_valid_shm_bus_delivery_mode_param_value,
}
use mould_system_backend.Config.Topology.Files.{is_valid_channel_name, is_allowed_channel_char}
use mould_system_backend.Config.LaunchPlan.{
  LaunchPlanScalar, text_scalar, int_scalar, bool_scalar, ResourceSchema, Doubles, Host,
  LaunchPlanValidationOptions, ParsedModuleLaunchEntry, ParsedLaunchPlan,
}
use mould_system_backend.Config.LaunchPlan.Scalars.{
  scalar_to_assignment_string, scalar_from_json_leaf, try_extract_int64,
}
use mould_system_backend.Config.LaunchPlan.CpuSet.{cpus_of_tokens, validate_and_normalize_cpu_set}
use mould_system_backend.Config.LaunchPlan.Resource.{
  Resource, startup_priority_key, cpu_set_key, cpu_id_key, restart_backoff_ms_key,
  restart_max_retries_key, restart_window_ms_key, restart_fuse_ms_key, ready_timeout_ms_key,
  lookup_required_int, lookup_required_cpu_set, validate_and_normalize,
}
use mould_system_backend.Config.LaunchPlan.Resource.Normal.{validate_and_normalize-idempotent}
use mould_system_backend.Config.LaunchPlan.Io.{
  parse_json_tree, parse_params, parse_channels, parse_channel_dict, known_keys,
  parse_module_io_json, parse_module_io_json_file,
}
use mould_system_backend.Config.LaunchPlan.Fields.{
  json_key_requires_integral_value, parse_scalars, parse_string_map_scalars,
  is_per_module_resource_schema_key, scalars_equal_for_merge, record_global_scalar,
  record_global_scalars,
}
use mould_system_backend.Config.LaunchPlan.Parse.{
  parse_minloglevel, parse_communication, resolve_io_path, entry_fields, record_entry_scalars,
  parse_module_entry, parse_module_entries, parse_launch_plan, parse_launch_plan_file,
}
use mould_system_backend.Config.LaunchPlan.Accepted.{
  IsLaunchPlan, parse_launch_plan_file-IsLaunchPlan,
}
use mould_system_backend.Config.LaunchPlan.Environment.Supervised.{
  supervisor_specs, IsNaming, names_of, accepted_plan_is_supervised,
}

abbrev plan_text : Bytes
plan_text =
    b'{' ∷ b'"' ∷ b'm' ∷ b'o' ∷ b'd' ∷ b'u' ∷ b'l' ∷ b'e' ∷ b's' ∷ b'"' ∷ b':' ∷ b'{' ∷ b'"' ∷ b'A'
    ∷ b'"' ∷ b':' ∷ b'{' ∷ b'"' ∷ b'm' ∷ b'o' ∷ b'd' ∷ b'u' ∷ b'l' ∷ b'e' ∷ b'_' ∷ b'n' ∷ b'a'
    ∷ b'm' ∷ b'e' ∷ b'"' ∷ b':' ∷ b'"' ∷ b'A' ∷ b'"' ∷ b',' ∷ b'"' ∷ b'r' ∷ b'e' ∷ b's' ∷ b'o'
    ∷ b'u' ∷ b'r' ∷ b'c' ∷ b'e' ∷ b'"' ∷ b':' ∷ b'{' ∷ b'"' ∷ b's' ∷ b't' ∷ b'a' ∷ b'r' ∷ b't'
    ∷ b'u' ∷ b'p' ∷ b'_' ∷ b'p' ∷ b'r' ∷ b'i' ∷ b'o' ∷ b'r' ∷ b'i' ∷ b't' ∷ b'y' ∷ b'"' ∷ b':'
    ∷ b'1' ∷ b',' ∷ b'"' ∷ b'c' ∷ b'p' ∷ b'u' ∷ b'_' ∷ b's' ∷ b'e' ∷ b't' ∷ b'"' ∷ b':' ∷ b'"'
    ∷ b'3' ∷ b',' ∷ b'0' ∷ b'"' ∷ b',' ∷ b'"' ∷ b'r' ∷ b'e' ∷ b's' ∷ b't' ∷ b'a' ∷ b'r' ∷ b't'
    ∷ b'_' ∷ b'b' ∷ b'a' ∷ b'c' ∷ b'k' ∷ b'o' ∷ b'f' ∷ b'f' ∷ b'_' ∷ b'm' ∷ b's' ∷ b'"' ∷ b':'
    ∷ b'1' ∷ b',' ∷ b'"' ∷ b'r' ∷ b'e' ∷ b's' ∷ b't' ∷ b'a' ∷ b'r' ∷ b't' ∷ b'_' ∷ b'm' ∷ b'a'
    ∷ b'x' ∷ b'_' ∷ b'r' ∷ b'e' ∷ b't' ∷ b'r' ∷ b'i' ∷ b'e' ∷ b's' ∷ b'"' ∷ b':' ∷ b'1' ∷ b','
    ∷ b'"' ∷ b'r' ∷ b'e' ∷ b's' ∷ b't' ∷ b'a' ∷ b'r' ∷ b't' ∷ b'_' ∷ b'w' ∷ b'i' ∷ b'n' ∷ b'd'
    ∷ b'o' ∷ b'w' ∷ b'_' ∷ b'm' ∷ b's' ∷ b'"' ∷ b':' ∷ b'1' ∷ b',' ∷ b'"' ∷ b'r' ∷ b'e' ∷ b's'
    ∷ b't' ∷ b'a' ∷ b'r' ∷ b't' ∷ b'_' ∷ b'f' ∷ b'u' ∷ b's' ∷ b'e' ∷ b'_' ∷ b'm' ∷ b's' ∷ b'"'
    ∷ b':' ∷ b'1' ∷ b',' ∷ b'"' ∷ b'r' ∷ b'e' ∷ b'a' ∷ b'd' ∷ b'y' ∷ b'_' ∷ b't' ∷ b'i' ∷ b'm'
    ∷ b'e' ∷ b'o' ∷ b'u' ∷ b't' ∷ b'_' ∷ b'm' ∷ b's' ∷ b'"' ∷ b':' ∷ b'1' ∷ b'}' ∷ b',' ∷ b'"'
    ∷ b'm' ∷ b'o' ∷ b'd' ∷ b'u' ∷ b'l' ∷ b'e' ∷ b'_' ∷ b'p' ∷ b'a' ∷ b'r' ∷ b'a' ∷ b'm' ∷ b's'
    ∷ b'"' ∷ b':' ∷ b'{' ∷ b'"' ∷ b'k' ∷ b'"' ∷ b':' ∷ b't' ∷ b'r' ∷ b'u' ∷ b'e' ∷ b'}' ∷ b','
    ∷ b'"' ∷ b'i' ∷ b'o' ∷ b'_' ∷ b'c' ∷ b'h' ∷ b'a' ∷ b'n' ∷ b'n' ∷ b'e' ∷ b'l' ∷ b's' ∷ b'_'
    ∷ b'c' ∷ b'o' ∷ b'n' ∷ b'f' ∷ b'i' ∷ b'g' ∷ b'_' ∷ b'p' ∷ b'a' ∷ b't' ∷ b'h' ∷ b'"' ∷ b':'
    ∷ b'"' ∷ b'a' ∷ b'"' ∷ b'}' ∷ b',' ∷ b'"' ∷ b'B' ∷ b'"' ∷ b':' ∷ b'{' ∷ b'"' ∷ b'm' ∷ b'o'
    ∷ b'd' ∷ b'u' ∷ b'l' ∷ b'e' ∷ b'_' ∷ b'n' ∷ b'a' ∷ b'm' ∷ b'e' ∷ b'"' ∷ b':' ∷ b'"' ∷ b'B'
    ∷ b'"' ∷ b',' ∷ b'"' ∷ b'r' ∷ b'e' ∷ b's' ∷ b'o' ∷ b'u' ∷ b'r' ∷ b'c' ∷ b'e' ∷ b'"' ∷ b':'
    ∷ b'{' ∷ b'"' ∷ b's' ∷ b't' ∷ b'a' ∷ b'r' ∷ b't' ∷ b'u' ∷ b'p' ∷ b'_' ∷ b'p' ∷ b'r' ∷ b'i'
    ∷ b'o' ∷ b'r' ∷ b'i' ∷ b't' ∷ b'y' ∷ b'"' ∷ b':' ∷ b'2' ∷ b',' ∷ b'"' ∷ b'c' ∷ b'p' ∷ b'u'
    ∷ b'_' ∷ b'i' ∷ b'd' ∷ b'"' ∷ b':' ∷ b'2' ∷ b',' ∷ b'"' ∷ b'r' ∷ b'e' ∷ b's' ∷ b't' ∷ b'a'
    ∷ b'r' ∷ b't' ∷ b'_' ∷ b'b' ∷ b'a' ∷ b'c' ∷ b'k' ∷ b'o' ∷ b'f' ∷ b'f' ∷ b'_' ∷ b'm' ∷ b's'
    ∷ b'"' ∷ b':' ∷ b'1' ∷ b',' ∷ b'"' ∷ b'r' ∷ b'e' ∷ b's' ∷ b't' ∷ b'a' ∷ b'r' ∷ b't' ∷ b'_'
    ∷ b'm' ∷ b'a' ∷ b'x' ∷ b'_' ∷ b'r' ∷ b'e' ∷ b't' ∷ b'r' ∷ b'i' ∷ b'e' ∷ b's' ∷ b'"' ∷ b':'
    ∷ b'1' ∷ b',' ∷ b'"' ∷ b'r' ∷ b'e' ∷ b's' ∷ b't' ∷ b'a' ∷ b'r' ∷ b't' ∷ b'_' ∷ b'w' ∷ b'i'
    ∷ b'n' ∷ b'd' ∷ b'o' ∷ b'w' ∷ b'_' ∷ b'm' ∷ b's' ∷ b'"' ∷ b':' ∷ b'1' ∷ b',' ∷ b'"' ∷ b'r'
    ∷ b'e' ∷ b's' ∷ b't' ∷ b'a' ∷ b'r' ∷ b't' ∷ b'_' ∷ b'f' ∷ b'u' ∷ b's' ∷ b'e' ∷ b'_' ∷ b'm'
    ∷ b's' ∷ b'"' ∷ b':' ∷ b'1' ∷ b',' ∷ b'"' ∷ b'r' ∷ b'e' ∷ b'a' ∷ b'd' ∷ b'y' ∷ b'_' ∷ b't'
    ∷ b'i' ∷ b'm' ∷ b'e' ∷ b'o' ∷ b'u' ∷ b't' ∷ b'_' ∷ b'm' ∷ b's' ∷ b'"' ∷ b':' ∷ b'1' ∷ b'}'
    ∷ b',' ∷ b'"' ∷ b'm' ∷ b'o' ∷ b'd' ∷ b'u' ∷ b'l' ∷ b'e' ∷ b'_' ∷ b'p' ∷ b'a' ∷ b'r' ∷ b'a'
    ∷ b'm' ∷ b's' ∷ b'"' ∷ b':' ∷ b'{' ∷ b'}' ∷ b',' ∷ b'"' ∷ b'i' ∷ b'o' ∷ b'_' ∷ b'c' ∷ b'h'
    ∷ b'a' ∷ b'n' ∷ b'n' ∷ b'e' ∷ b'l' ∷ b's' ∷ b'_' ∷ b'c' ∷ b'o' ∷ b'n' ∷ b'f' ∷ b'i' ∷ b'g'
    ∷ b'_' ∷ b'p' ∷ b'a' ∷ b't' ∷ b'h' ∷ b'"' ∷ b':' ∷ b'"' ∷ b'b' ∷ b'"' ∷ b'}' ∷ b'}' ∷ b','
    ∷ b'"' ∷ b'm' ∷ b'i' ∷ b'n' ∷ b'l' ∷ b'o' ∷ b'g' ∷ b'l' ∷ b'e' ∷ b'v' ∷ b'e' ∷ b'l' ∷ b'"'
    ∷ b':' ∷ b'"' ∷ b'1' ∷ b'"' ∷ b',' ∷ b'"' ∷ b'c' ∷ b'o' ∷ b'm' ∷ b'm' ∷ b'u' ∷ b'n' ∷ b'i'
    ∷ b'c' ∷ b'a' ∷ b't' ∷ b'i' ∷ b'o' ∷ b'n' ∷ b'"' ∷ b':' ∷ b'{' ∷ b'"' ∷ b's' ∷ b'h' ∷ b'm'
    ∷ b'_' ∷ b's' ∷ b'l' ∷ b'o' ∷ b't' ∷ b'_' ∷ b'c' ∷ b'o' ∷ b'u' ∷ b'n' ∷ b't' ∷ b'"' ∷ b':'
    ∷ b'8' ∷ b'}' ∷ b'}' ∷ []

abbrev a_text : Bytes
a_text =
    b'{' ∷ b'"' ∷ b'i' ∷ b'n' ∷ b'p' ∷ b'u' ∷ b't' ∷ b'_' ∷ b'c' ∷ b'h' ∷ b'a' ∷ b'n' ∷ b'n' ∷ b'e'
    ∷ b'l' ∷ b'"' ∷ b':' ∷ b'{' ∷ b'}' ∷ b',' ∷ b'"' ∷ b'o' ∷ b'u' ∷ b't' ∷ b'p' ∷ b'u' ∷ b't'
    ∷ b'_' ∷ b'c' ∷ b'h' ∷ b'a' ∷ b'n' ∷ b'n' ∷ b'e' ∷ b'l' ∷ b'"' ∷ b':' ∷ b'{' ∷ b'"' ∷ b'c'
    ∷ b'"' ∷ b':' ∷ b'{' ∷ b'}' ∷ b'}' ∷ b'}' ∷ []

abbrev b_text : Bytes
b_text =
    b'{' ∷ b'"' ∷ b'i' ∷ b'n' ∷ b'p' ∷ b'u' ∷ b't' ∷ b'_' ∷ b'c' ∷ b'h' ∷ b'a' ∷ b'n' ∷ b'n' ∷ b'e'
    ∷ b'l' ∷ b'"' ∷ b':' ∷ b'{' ∷ b'"' ∷ b'c' ∷ b'"' ∷ b':' ∷ b'{' ∷ b'}' ∷ b'}' ∷ b',' ∷ b'"'
    ∷ b'o' ∷ b'u' ∷ b't' ∷ b'p' ∷ b'u' ∷ b't' ∷ b'_' ∷ b'c' ∷ b'h' ∷ b'a' ∷ b'n' ∷ b'n' ∷ b'e'
    ∷ b'l' ∷ b'"' ∷ b':' ∷ b'{' ∷ b'}' ∷ b'}' ∷ []

abbrev module_a : Bytes
module_a = b'A' ∷ []

abbrev module_b : Bytes
module_b = b'B' ∷ []

abbrev plan_path : Bytes
plan_path = b'p' ∷ []

abbrev no_doubles : Doubles
no_doubles = record {
  stod_converts = λ token. false;
  print_real = λ token. token;
  to_int64 = λ token. none;
  nearly_equal = λ a b. false;
}

abbrev files : Bytes → Option Bytes
files path =
    if bytes_eq path plan_path
    then some plan_text
    else if bytes_eq path (b'a' ∷ [])
    then some a_text
    else if bytes_eq path (b'b' ∷ [])
    then some b_text
    else none

abbrev host : Host
host = record {
  files = files;
  doubles = no_doubles;
  parent_path = λ path. [];
  lexically_normal = λ path. path;
}

abbrev options : LaunchPlanValidationOptions
options = record {
  enforce_strict_resource_schema = true;
  registered_module_names = some (module_a ∷ module_b ∷ []);
}

abbrev one : LaunchPlanScalar
one = int_scalar (pos 1)

abbrev limits : Resource
limits =
    (restart_backoff_ms_key, one)
    ∷ (restart_max_retries_key, one)
    ∷ (restart_window_ms_key, one)
    ∷ (restart_fuse_ms_key, one)
    ∷ (ready_timeout_ms_key, one)
    ∷ []

abbrev resource_a : Bytes → Resource
resource_a cpus = (startup_priority_key, one) ∷ (cpu_set_key, text_scalar cpus) ∷ limits

abbrev resource_b : Resource
resource_b = (startup_priority_key, int_scalar (pos 2)) ∷ (cpu_id_key, int_scalar (pos 2)) ∷ limits

abbrev schema : ℕ → Bytes → ResourceSchema
schema priority cpus = record {
  startup_priority = pos priority;
  cpu_set = cpus;
  restart_backoff_ms = pos 1;
  restart_max_retries = pos 1;
  restart_window_ms = pos 1;
  restart_fuse_ms = pos 1;
  ready_timeout_ms = pos 1;
}

abbrev cpus_a : Bytes
cpus_a = b'3' ∷ b',' ∷ b'0' ∷ []

abbrev cpus_b : Bytes
cpus_b = b'2' ∷ []

abbrev channel_c : ChannelEndpointConfig
channel_c = record { channel = b'c' ∷ []; params = [] }

abbrev entry_a : ParsedModuleLaunchEntry
entry_a = record {
  modules_dict_key = module_a;
  module_name = module_a;
  resource = resource_a cpus_a;
  resource_schema = schema 1 cpus_a;
  module_params = (b'k' ∷ [], bool_scalar true) ∷ [];
  io_channels_config_path_resolved = b'a' ∷ [];
  channels = record {
    module_name = module_a;
    input_channels = [];
    output_channels = channel_c ∷ [];
  };
}

abbrev entry_b : ParsedModuleLaunchEntry
entry_b = record {
  modules_dict_key = module_b;
  module_name = module_b;
  resource = resource_b ++ (cpu_set_key, text_scalar cpus_b) ∷ [];
  resource_schema = schema 2 cpus_b;
  module_params = [];
  io_channels_config_path_resolved = b'b' ∷ [];
  channels = record {
    module_name = module_b;
    input_channels = channel_c ∷ [];
    output_channels = [];
  };
}

abbrev entry_c : ChannelTopologyEntry
entry_c = record {
  channel = b'c' ∷ [];
  producers = module_a ∷ [];
  consumers = module_b ∷ [];
  consumer_count = 1;
  params = [];
}

abbrev plan : ParsedLaunchPlan
plan = record {
  launch_plan_path = plan_path;
  minloglevel = some (pos 1);
  communication_slot_count = some 8;
  communication_slot_payload_bytes = none;
  modules = entry_a ∷ entry_b ∷ [];
  global_topology = (b'c' ∷ [], entry_c) ∷ [];
}

legacy_cpu : validate_and_normalize no_doubles resource_b ≡ done (entry_b.resource, schema 2 cpus_b)
unfolding validate_and_normalize lookup_required_int lookup_required_cpu_set
    validate_and_normalize_cpu_set cpus_of_tokens try_extract_int64 getline_all to_string digits_of
    stoll skip_spaces stoll_signed span_digits digits_value is_digit is_space find assign
legacy_cpu = refl

validate_and_normalize-idempotent_example :
    validate_and_normalize no_doubles entry_b.resource ≡ done (entry_b.resource, schema 2 cpus_b)
validate_and_normalize-idempotent_example =
    validate_and_normalize-idempotent no_doubles resource_b (entry_b.resource, schema 2 cpus_b)
      legacy_cpu

plan_read : parse_launch_plan_file host options plan_path ≡ done plan
unfolding parse_launch_plan_file parse_launch_plan parse_module_entries parse_module_entry
    record_entry_scalars entry_fields resolve_io_path parse_communication parse_minloglevel
    record_global_scalars record_global_scalar scalars_equal_for_merge
    is_per_module_resource_schema_key parse_string_map_scalars parse_scalars
    json_key_requires_integral_value parse_module_io_json_file parse_module_io_json known_keys
    parse_channel_dict parse_channels parse_params parse_json_tree validate_and_normalize
    lookup_required_int lookup_required_cpu_set validate_and_normalize_cpu_set cpus_of_tokens
    try_extract_int64 scalar_from_json_leaf scalar_to_assignment_string is_valid_channel_name
    is_allowed_channel_char build_channel_topology_index merge_modules merge_module merge_endpoints
    merge_endpoint merge_params merge_param check_entries check_entry sort_names insert_name
    string_less validate_channel_schema_governance resolve_channel_payload_type
    parse_channel_payload_type param_or_empty is_valid_shm_bus_delivery_mode_param_value
    parse_document parse_value parse_members parse_items parse_number parse_string parse_key
    parse_bool parse_null scan_string unescape number_token start_of next_of expect ws is_ws
    find_object_key getline_all to_string digits_of stoll skip_spaces stoll_signed span_digits
    digits_value is_digit is_space find assign emplace
plan_read = refl

parse_launch_plan_file-IsLaunchPlan_example : IsLaunchPlan host options plan
parse_launch_plan_file-IsLaunchPlan_example =
    parse_launch_plan_file-IsLaunchPlan host options plan_path plan plan_read

abbrev text_a : String
text_a = "A"

abbrev text_b : String
text_b = "B"

abbrev no_text : String
no_text = ""

abbrev name_text : Bytes → String
name_text name =
    if bytes_eq name module_a then text_a else if bytes_eq name module_b then text_b else no_text

one_of_two :
    (a : Bytes) → mem_bytes a (names_of plan.modules) ≡ true → (a ≡ module_a) ⊎ (a ≡ module_b)
one_of_two a h = elim (Bool-cases (bytes_eq module_a a)) [
  | inl e ↦ inl (sym (bytes_eq→eq module_a a e))
  | inr e ↦ inr (sym (bytes_eq→eq module_b a (ground arith)))
]

distinct_texts : true ≢ false
distinct_texts e = cc

a_not_b : text_a ≢ text_b
a_not_b e = distinct_texts (ap (λ t. str_eq t text_a) e)

a_not_empty : text_a ≢ no_text
a_not_empty e = distinct_texts (ap (λ t. str_eq t text_a) e)

b_not_empty : text_b ≢ no_text
b_not_empty e = distinct_texts (ap (λ t. str_eq t text_b) e)

two_names : IsNaming name_text (names_of plan.modules)
two_names = record {
  apart = λ a b ha hb same. named_apart (one_of_two a ha) (one_of_two b hb) same;
  not_empty = λ a ha same. named_not_empty (one_of_two a ha) same;
}
  where
    named_apart :
        {a b : Bytes}
        → (a ≡ module_a) ⊎ (a ≡ module_b)
        → (b ≡ module_a) ⊎ (b ≡ module_b)
        → name_text a ≡ name_text b
        → a ≡ b
    named_apart (inl p) (inl q) same = p ∙ sym q
    named_apart (inl p) (inr q) same =
        absurd (a_not_b (ap name_text (sym p) ∙ same ∙ ap name_text q))
    named_apart (inr p) (inl q) same =
        absurd (a_not_b (ap name_text (sym q) ∙ sym same ∙ ap name_text p))
    named_apart (inr p) (inr q) same = p ∙ sym q

    named_not_empty : {a : Bytes} → (a ≡ module_a) ⊎ (a ≡ module_b) → name_text a ≡ "" → a ≡ []
    named_not_empty (inl p) same = absurd (a_not_empty (ap name_text (sym p) ∙ same))
    named_not_empty (inr p) same = absurd (b_not_empty (ap name_text (sym p) ∙ same))

accepted_plan_is_supervised_example :
    validate_single_module_per_process_invariant (supervisor_specs name_text plan.modules) ≡ none
accepted_plan_is_supervised_example =
    accepted_plan_is_supervised name_text host options plan_path plan two_names plan_read

-- Factories whose instances are numbers.
abbrev factories : Registry Bytes ℕ
factories = (module_a, λ config. some 1) ∷ (module_b, λ config. none) ∷ []

accepted_plan-AllCreate_example : AllCreate factories [] plan.modules
unfolding registered_names
accepted_plan-AllCreate_example =
    accepted_plan-AllCreate factories [] host true plan_path plan plan_read
