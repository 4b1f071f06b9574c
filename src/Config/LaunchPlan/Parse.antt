-- ===== src/Config/LaunchPlan/Parse.antt =====
-- The launch plan: its top level, its modules, and the topology of their channels.
use mould_system_backend.Common.{
  ℕ, ℤ, pos, negsuc, Bool, true, false, ◌&&◌, ◌||◌, Bytes, bytes_eq, is_empty, Option, none, some,
  List, [], ◌∷◌, ◌++◌, ◌-◌, ◌^◌, ◌==◌, leb, if◌then◌else◌, Dict, mem_bytes, Checked, done, refused,
  ◌>>=◌, require,
}
use mould_system_backend.Config.Json.Tree.{
  JValue, JObject, text, no_members, member, find_object_key,
}
use mould_system_backend.Config.Topology.{ModuleChannelConfig, ChannelTopologyIndex, TopologyError}
use mould_system_backend.Config.Topology.Build.{build_channel_topology_index}
use mould_system_backend.Config.Json.Reader.{peek}
use mould_system_backend.Config.LaunchPlan.{
  LaunchPlanScalar, ResourceSchema, Doubles, Host, PlanError, LaunchPlanValidationOptions,
  ParsedModuleLaunchEntry, ParsedLaunchPlan, plan_not_found, modules_missing, modules_not_object,
  root_not_object, level_out_of_range, communication_not_object, slot_count_out_of_range,
  payload_bytes_out_of_range, entry_not_object, entry_field_missing, entry_name_empty,
  entry_name_mismatch, io_path_empty, module_unregistered, topology_error,
}
use mould_system_backend.Config.LaunchPlan.Scalars.{scalar_from_json_leaf, try_extract_int64}
use mould_system_backend.Config.LaunchPlan.Resource.{Resource, validate_and_normalize}
use mould_system_backend.Config.LaunchPlan.Io.{
  parse_json_tree, members_or, present, known_keys, readable, parse_module_io_json_file,
}
use mould_system_backend.Config.LaunchPlan.Fields.{
  modules_key, minloglevel_key, communication_key, shm_slot_count_field, slot_payload_bytes_field,
  module_name_key, resource_key, module_params_key, io_path_key, parse_string_map_scalars,
  is_per_module_resource_schema_key, record_global_scalars,
}

-- A scalar that is an integer, if the field is there.
abbrev pub optional_int : Doubles → Option JValue → Checked PlanError (Option ℤ)
optional_int doubles none = done none
optional_int doubles (some node) =
    scalar_from_json_leaf node >>= λ scalar. try_extract_int64 doubles scalar >>= λ i. done (some i)

abbrev pub in_range : ℕ → ℕ → Option ℤ → Bool
in_range low high none = true
in_range low high (some (pos n)) = leb low n && leb n high
in_range low high (some (negsuc n)) = false

abbrev pub natural : Option ℤ → Option ℕ
natural none = none
natural (some (pos n)) = some n
natural (some (negsuc n)) = none

unfoldable pub parse_minloglevel : Doubles → Option JValue → Checked PlanError (Option ℤ)
unfolding scalar_from_json_leaf try_extract_int64
parse_minloglevel doubles node = optional_int doubles node >>= λ level.
    require (in_range 0 3 level) level_out_of_range >>= λ _. done level

-- The count of slots and the bytes of a payload.
unfoldable pub parse_communication :
    Doubles → Option JValue → Checked PlanError (Option ℕ × Option ℕ)
unfolding scalar_from_json_leaf try_extract_int64 known_keys find_object_key
parse_communication doubles none = done (none, none)
parse_communication doubles (some node) = members_or communication_not_object node >>= λ o.
    known_keys (shm_slot_count_field ∷ slot_payload_bytes_field ∷ []) o >>= λ _.
    optional_int doubles (find_object_key shm_slot_count_field o) >>= λ count.
    require (in_range 1 (2 ^ 32 - 1) count) slot_count_out_of_range >>= λ _.
    optional_int doubles (find_object_key slot_payload_bytes_field o) >>= λ bytes.
    require (in_range 1 (2 ^ 63 - 1) bytes) payload_bytes_out_of_range >>= λ _.
    done (natural count, natural bytes)

abbrev pub no_schema : ResourceSchema
no_schema = record {
  startup_priority = pos 0;
  cpu_set = [];
  restart_backoff_ms = pos 0;
  restart_max_retries = pos 0;
  restart_window_ms = pos 0;
  restart_fuse_ms = pos 0;
  ready_timeout_ms = pos 0;
}

abbrev pub checked_resource :
    Doubles → Bool → Resource → Checked PlanError (Resource × ResourceSchema)
checked_resource doubles true resource = validate_and_normalize doubles resource
checked_resource doubles false resource = done (resource, no_schema)

abbrev pub is_registered : Option (List Bytes) → Bytes → Bool
is_registered none name = true
is_registered (some names) name = mem_bytes name names

-- A string that is not empty.
abbrev pub non_empty_text : PlanError → JValue → Checked PlanError Bytes
non_empty_text e (text (c ∷ cs)) = done (c ∷ cs)
non_empty_text e _ = refused e

-- `launch_dir / raw`, unless the path is absolute.
unfoldable pub resolve_io_path : Bytes → Bytes → Bytes
resolve_io_path launch_dir raw =
    if peek raw == b'/'
    then raw
    else if is_empty launch_dir || last_byte launch_dir == b'/'
    then launch_dir ++ raw
    else launch_dir ++ b'/' ∷ raw
  where
    last_byte : Bytes → ℕ
    last_byte [] = 0
    last_byte (c ∷ []) = c
    last_byte (c ∷ d ∷ cs) = last_byte (d ∷ cs)

-- The name of an entry, its resource and parameters, and the path of its channel file.
unfoldable pub entry_fields : Bytes → JValue → Checked PlanError (Bytes × JValue × JValue × Bytes)
unfolding find_object_key known_keys
entry_fields dict_key node = members_or (entry_not_object dict_key) node >>= λ mo.
    present (entry_field_missing module_name_key) (find_object_key module_name_key mo) >>= λ name_v.
    present (entry_field_missing resource_key) (find_object_key resource_key mo) >>= λ res_v.
    present (entry_field_missing module_params_key) (find_object_key module_params_key mo)
    >>= λ par_v.
        present (entry_field_missing io_path_key) (find_object_key io_path_key mo) >>= λ io_v.
        non_empty_text (entry_name_empty dict_key) name_v >>= λ name.
        require (bytes_eq name dict_key) (entry_name_mismatch dict_key) >>= λ _.
        non_empty_text (io_path_empty dict_key) io_v >>= λ io_raw.
        known_keys (module_name_key ∷ resource_key ∷ module_params_key ∷ io_path_key ∷ []) mo
        >>= λ _. done (name, res_v, par_v, io_raw)

-- The scalars of both maps of an entry join those of the entries before it.
unfoldable pub record_entry_scalars :
    Doubles
    → Resource
    → Dict LaunchPlanScalar
    → Dict LaunchPlanScalar
    → Checked PlanError (Dict LaunchPlanScalar)
unfolding record_global_scalars is_per_module_resource_schema_key
record_entry_scalars doubles resource params global =
    record_global_scalars doubles is_per_module_resource_schema_key resource global
    >>= record_global_scalars doubles (λ _. false) params

-- One entry of `modules`, with the scalars of the entries before it.
unfoldable pub parse_module_entry :
    Host
    → LaunchPlanValidationOptions
    → Bytes
    → Bytes
    → JValue
    → Dict LaunchPlanScalar
    → Checked PlanError (ParsedModuleLaunchEntry × Dict LaunchPlanScalar)
unfolding entry_fields parse_string_map_scalars validate_and_normalize record_entry_scalars
    parse_module_io_json_file resolve_io_path
parse_module_entry host options launch_dir dict_key node global =
    entry_fields dict_key node >>= λ fields.
    parse_string_map_scalars resource_key fields.1 >>= λ raw.
    checked_resource host.doubles options.enforce_strict_resource_schema raw >>= λ resource.
    parse_string_map_scalars module_params_key fields.2 >>= λ params.
    require (is_registered options.registered_module_names fields.0) (module_unregistered fields.0)
    >>= λ _. record_entry_scalars host.doubles resource.0 params global >>= λ all.
        (let io_abs = host.lexically_normal (resolve_io_path launch_dir fields.3) in
          parse_module_io_json_file host fields.0 io_abs >>= λ channels. done (
            record {
              modules_dict_key = dict_key;
              module_name = fields.0;
              resource = resource.0;
              resource_schema = resource.1;
              module_params = params;
              io_channels_config_path_resolved = io_abs;
              channels = channels;
            },
            all,
          ))

unfoldable pub parse_module_entries :
    Host
    → LaunchPlanValidationOptions
    → Bytes
    → JObject
    → Dict LaunchPlanScalar
    → Checked PlanError (List ParsedModuleLaunchEntry)
unfolding parse_module_entry
parse_module_entries host options launch_dir no_members global = done []
parse_module_entries host options launch_dir (member key node rest) global =
    parse_module_entry host options launch_dir key node global >>= λ parsed.
    parse_module_entries host options launch_dir rest parsed.1 >>= λ entries.
    done (parsed.0 ∷ entries)

abbrev pub channels_of_entries : List ParsedModuleLaunchEntry → List ModuleChannelConfig
channels_of_entries [] = []
channels_of_entries (e ∷ es) = e.channels ∷ channels_of_entries es

abbrev pub topology_or_error :
    Checked TopologyError ChannelTopologyIndex → Checked PlanError ChannelTopologyIndex
topology_or_error (done t) = done t
topology_or_error (refused e) = refused (topology_error e)

-- The plan of a tree.
unfoldable pub parse_launch_plan :
    Host → LaunchPlanValidationOptions → Bytes → JValue → Checked PlanError ParsedLaunchPlan
unfolding find_object_key parse_minloglevel parse_communication known_keys parse_module_entries
    build_channel_topology_index
parse_launch_plan host options path root = members_or root_not_object root >>= λ o.
    present modules_missing (find_object_key modules_key o) >>= λ modules_node.
    members_or modules_not_object modules_node >>= λ modules.
    parse_minloglevel host.doubles (find_object_key minloglevel_key o) >>= λ level.
    parse_communication host.doubles (find_object_key communication_key o) >>= λ sizes.
    known_keys (modules_key ∷ minloglevel_key ∷ communication_key ∷ []) o >>= λ _.
    parse_module_entries host options (host.parent_path path) modules [] >>= λ entries.
    topology_or_error (build_channel_topology_index (channels_of_entries entries)) >>= λ topology.
    done (record {
      launch_plan_path = path;
      minloglevel = level;
      communication_slot_count = sizes.0;
      communication_slot_payload_bytes = sizes.1;
      modules = entries;
      global_topology = topology;
    })

-- `ParseLaunchPlanFile` with an output that is not null.
unfoldable pub parse_launch_plan_file :
    Host → LaunchPlanValidationOptions → Bytes → Checked PlanError ParsedLaunchPlan
unfolding parse_json_tree parse_launch_plan
parse_launch_plan_file host options path = readable plan_not_found (host.files path) >>= λ content.
    parse_json_tree host.doubles content >>= λ root. parse_launch_plan host options path root
