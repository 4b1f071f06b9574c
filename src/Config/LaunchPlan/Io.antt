-- ===== src/Config/LaunchPlan/Io.antt =====
-- A module's channel file, as the launch plan reads it.
use mould_system_backend.Common.{
  Bool, true, false, not, ◌&&◌, Bytes, Option, none, some, List, [], ◌∷◌, Dict, find, emplace,
  mem_bytes, Checked, done, refused, ◌>>=◌, require,
}
use mould_system_backend.Config.Json.Tree.{
  JValue, JObject, object, no_members, member, find_object_key, Parsed, ok, failed, out_of_fuel,
  invalid_number,
}
use mould_system_backend.Config.Json.Reader.{Numbers, parse_document}
use mould_system_backend.Config.Topology.{ChannelEndpointConfig, ModuleChannelConfig}
use mould_system_backend.Config.Topology.Files.{
  is_valid_channel_name, endpoint_of, input_channel_key, output_channel_key,
}
use mould_system_backend.Config.LaunchPlan.{
  Doubles, Host, PlanError, unfinished, invalid_json, unknown_key, io_file_not_found,
  io_root_not_object, input_missing, output_missing, side_not_object, channel_name_invalid,
  channel_params_not_object, parameter_repeated, output_repeated,
}
use mould_system_backend.Config.LaunchPlan.Scalars.{
  scalar_from_json_leaf, scalar_to_assignment_string,
}

-- This reader turns the exceptions of a conversion into its own error.
abbrev pub numbers_of : Doubles → Numbers
numbers_of doubles = record {
  stod_converts = doubles.stod_converts;
  conversion_error = invalid_number;
}

abbrev pub json_tree : Parsed JValue → Checked PlanError JValue
json_tree (ok v rest) = done v
json_tree (failed e) = refused (invalid_json e)
json_tree out_of_fuel = refused unfinished

unfoldable pub parse_json_tree : Doubles → Bytes → Checked PlanError JValue
unfolding parse_document
parse_json_tree doubles content = json_tree (parse_document (numbers_of doubles) content)

abbrev pub members_or : PlanError → JValue → Checked PlanError JObject
members_or e (object o) = done o
members_or e _ = refused e

abbrev pub present : PlanError → Option JValue → Checked PlanError JValue
present e none = refused e
present e (some v) = done v

abbrev pub is_new : Option Bytes → Bool
is_new none = true
is_new (some v) = false

unfoldable pub parse_params : Doubles → JObject → Dict Bytes → Checked PlanError (Dict Bytes)
unfolding scalar_from_json_leaf scalar_to_assignment_string
parse_params doubles no_members params = done params
parse_params doubles (member key v rest) params = scalar_from_json_leaf v >>= λ scalar.
    require (is_new (find key params)) (parameter_repeated key) >>= λ _.
    parse_params doubles rest (emplace key (scalar_to_assignment_string doubles scalar) params)

unfoldable pub parse_channels :
    Doubles → Bool → List Bytes → JObject → Checked PlanError (List ChannelEndpointConfig)
unfolding is_valid_channel_name parse_params
parse_channels doubles is_output seen no_members = done []
parse_channels doubles is_output seen (member channel v rest) =
    require (is_valid_channel_name channel) (channel_name_invalid channel) >>= λ _.
    members_or (channel_params_not_object channel) v >>= λ o.
    parse_params doubles o [] >>= λ params.
    require (not (is_output && mem_bytes channel seen)) (output_repeated channel) >>= λ _.
    parse_channels doubles is_output (channel ∷ seen) rest >>= λ others.
    done (endpoint_of channel params ∷ others)

unfoldable pub parse_channel_dict :
    Doubles → Bytes → Bool → JValue → Checked PlanError (List ChannelEndpointConfig)
unfolding parse_channels
parse_channel_dict doubles field is_output side =
    members_or (side_not_object field) side >>= parse_channels doubles is_output []

-- The first key that is not among the known ones is an error.
unfoldable pub known_keys : List Bytes → JObject → Checked PlanError (Unit {0})
known_keys keys no_members = done tt
known_keys keys (member k v rest) =
    require (mem_bytes k keys) (unknown_key k) >>= λ _. known_keys keys rest

unfoldable pub parse_module_io_json :
    Doubles → Bytes → Bytes → JValue → Checked PlanError ModuleChannelConfig
unfolding known_keys parse_channel_dict find_object_key
parse_module_io_json doubles name path root = members_or (io_root_not_object path) root >>= λ o.
    present (input_missing name) (find_object_key input_channel_key o) >>= λ in_node.
    present (output_missing name) (find_object_key output_channel_key o) >>= λ out_node.
    known_keys (input_channel_key ∷ output_channel_key ∷ []) o >>= λ _.
    parse_channel_dict doubles input_channel_key false in_node >>= λ inputs.
    parse_channel_dict doubles output_channel_key true out_node >>= λ outputs.
    done (record { module_name = name; input_channels = inputs; output_channels = outputs })

abbrev pub readable : PlanError → Option Bytes → Checked PlanError Bytes
readable e none = refused e
readable e (some content) = done content

unfoldable pub parse_module_io_json_file :
    Host → Bytes → Bytes → Checked PlanError ModuleChannelConfig
unfolding parse_json_tree parse_module_io_json
parse_module_io_json_file host name path =
    readable (io_file_not_found path) (host.files path) >>= λ content.
    parse_json_tree host.doubles content >>= λ root.
    parse_module_io_json host.doubles name path root
