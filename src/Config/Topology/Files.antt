-- ===== src/Config/Topology/Files.antt =====
-- Reading a module's channels from its file: JSON, or lines of text.
pub mod Lines
pub mod Accepted
pub mod Indexed
use mould_system_backend.Common.{
  ℕ, Bool, true, false, not, ◌&&◌, ◌||◌, Bytes, bytes_eq, is_empty, Option, none, some, List, [],
  ◌∷◌, ◌++◌, ◌+◌, ◌==◌, leb, if◌then◌else◌, Dict, assign, mem_bytes, Checked, done, refused, ◌>>=◌,
  require,
}
use mould_system_backend.Config.Decimal.{to_string}
use mould_system_backend.Config.Json.Tree.{
  JValue, JObject, null, boolean, integral, real, text, object, array, no_members, member,
  find_object_key, JsonError, uncaught, Parsed, ok, failed, out_of_fuel,
}
use mould_system_backend.Config.Json.Reader.{Numbers, parse_document, true_word, false_word}
use mould_system_backend.Config.Topology.{
  ChannelEndpointConfig, ModuleChannelConfig, ChannelTopologyIndex, TopologyError,
}
use mould_system_backend.Config.Topology.Build.{build_channel_topology_index}

-- The texts of the errors. `thrown` is an exception that no handler takes.
pub data ConfigError : Type 0 where
  not_opened root_not_object sides_missing sides_not_objects thrown unfinished : ConfigError
  invalid_json : JsonError → ConfigError
  invalid_channel_name params_not_object param_not_scalar duplicate_output_channel :
      Bytes → ConfigError
  topology_error : TopologyError → ConfigError

unfoldable pub is_allowed_channel_char : ℕ → Bool
is_allowed_channel_char c =
    leb b'a' c && leb c b'z'
    || leb b'A' c && leb c b'Z'
    || leb b'0' c && leb c b'9'
    || c == b'_'
    || c == b'-'
    || c == b'/'
    || c == b'.'

abbrev pub all_allowed : Bytes → Bool
unfolding is_allowed_channel_char
all_allowed [] = true
all_allowed (c ∷ cs) = is_allowed_channel_char c && all_allowed cs

unfoldable pub is_valid_channel_name : Bytes → Bool
unfolding is_allowed_channel_char
is_valid_channel_name channel = not (is_empty channel) && all_allowed channel

-- `std::stod`'s outcome printed by a stream, by the text of the number.
abbrev pub json_scalar_to_string : (Bytes → Bytes) → JValue → Bytes
json_scalar_to_string print_real (text s) = s
json_scalar_to_string print_real (boolean b) = if b then true_word else false_word
json_scalar_to_string print_real (integral i) = to_string i
json_scalar_to_string print_real (real token) = print_real token
json_scalar_to_string print_real _ = []

abbrev pub is_text : JValue → Bool
is_text (text s) = true
is_text _ = false

unfoldable pub parse_channel_params :
    (Bytes → Bytes) → JObject → Dict Bytes → Checked ConfigError (Dict Bytes)
parse_channel_params print_real no_members params = done params
parse_channel_params print_real (member key v rest) params =
    let scalar = json_scalar_to_string print_real v in
    require (not (is_empty scalar && not (is_text v))) (param_not_scalar key) >>= λ _.
    parse_channel_params print_real rest (assign key scalar params)

abbrev pub endpoint_of : Bytes → Dict Bytes → ChannelEndpointConfig
endpoint_of channel params = record { channel = channel; params = params }

abbrev pub members_of : ConfigError → JValue → Checked ConfigError JObject
members_of e (object o) = done o
members_of e _ = refused e

-- One side of the file: the flag says that it is the output side, whose channels are not repeated.
unfoldable pub parse_side :
    (Bytes → Bytes) → Bool → List Bytes → JObject → Checked ConfigError (List ChannelEndpointConfig)
unfolding is_valid_channel_name parse_channel_params
parse_side print_real is_output seen no_members = done []
parse_side print_real is_output seen (member channel v rest) =
    require (is_valid_channel_name channel) (invalid_channel_name channel) >>= λ _.
    members_of (params_not_object channel) v >>= λ o.
    parse_channel_params print_real o [] >>= λ params.
    require (not (is_output && mem_bytes channel seen)) (duplicate_output_channel channel) >>= λ _.
    parse_side print_real is_output (channel ∷ seen) rest >>= λ others.
    done (endpoint_of channel params ∷ others)

abbrev pub input_channel_key : Bytes
input_channel_key =
    b'i' ∷ b'n' ∷ b'p' ∷ b'u' ∷ b't' ∷ b'_' ∷ b'c' ∷ b'h' ∷ b'a' ∷ b'n' ∷ b'n' ∷ b'e' ∷ b'l' ∷ []

abbrev pub output_channel_key : Bytes
output_channel_key =
    b'o' ∷ b'u' ∷ b't' ∷ b'p' ∷ b'u' ∷ b't' ∷ b'_' ∷ b'c' ∷ b'h' ∷ b'a' ∷ b'n' ∷ b'n' ∷ b'e' ∷ b'l'
    ∷ []

-- The reader of this file catches its own errors only, not the exceptions of a conversion.
abbrev pub json_root : Parsed JValue → Checked ConfigError JValue
json_root (ok v rest) = done v
json_root (failed uncaught) = refused thrown
json_root (failed e) = refused (invalid_json e)
json_root out_of_fuel = refused unfinished

abbrev pub both_sides : Option JValue → Option JValue → Checked ConfigError (JObject × JObject)
both_sides (some i) (some o) = members_of sides_not_objects i >>= λ inputs.
    members_of sides_not_objects o >>= λ outputs. done (inputs, outputs)
both_sides _ _ = refused sides_missing

-- What the reader needs of the standard library: which reals `std::stod` converts, and how a stream
-- prints what it gives.
pub record Reals : Type 0 where
  pub stod_converts : Bytes → Bool
  pub print_real : Bytes → Bytes

abbrev pub numbers_of : Reals → Numbers
numbers_of reals = record { stod_converts = reals.stod_converts; conversion_error = uncaught }

-- `JsonParser::ParseDocument`.
unfoldable pub json_document : Reals → Bytes → Parsed JValue
unfolding parse_document
json_document reals content = parse_document (numbers_of reals) content

unfoldable pub parse_module_channel_config_text :
    Reals → Bytes → Bytes → Checked ConfigError ModuleChannelConfig
unfolding parse_side json_document find_object_key
parse_module_channel_config_text reals name content =
    json_root (json_document reals content) >>= λ root. members_of root_not_object root >>= λ o.
    both_sides (find_object_key input_channel_key o) (find_object_key output_channel_key o)
    >>= λ sides. parse_side reals.print_real false [] sides.0 >>= λ inputs.
        parse_side reals.print_real true [] sides.1 >>= λ outputs.
        done (record { module_name = name; input_channels = inputs; output_channels = outputs })

-- The file system: the content of a file that can be opened.
abbrev pub Files : Type 0
Files = Bytes → Option Bytes

abbrev pub opened : Option Bytes → Checked ConfigError Bytes
opened none = refused not_opened
opened (some content) = done content

unfoldable pub parse_module_channel_config_json_file :
    Reals → Files → Bytes → Bytes → Checked ConfigError ModuleChannelConfig
unfolding parse_module_channel_config_text
parse_module_channel_config_json_file reals files name path =
    opened (files path) >>= parse_module_channel_config_text reals name

unfoldable pub parse_all :
    Reals → Files → List (Bytes × Bytes) → Checked ConfigError (List ModuleChannelConfig)
unfolding parse_module_channel_config_json_file
parse_all reals files [] = done []
parse_all reals files ((name, path) ∷ rest) =
    parse_module_channel_config_json_file reals files name path >>= λ config.
    parse_all reals files rest >>= λ configs. done (config ∷ configs)

abbrev pub topology_checked :
    Checked TopologyError ChannelTopologyIndex → Checked ConfigError ChannelTopologyIndex
topology_checked (done topology) = done topology
topology_checked (refused e) = refused (topology_error e)

unfoldable pub build_channel_topology_index_from_files :
    Reals → Files → List (Bytes × Bytes) → Checked ConfigError ChannelTopologyIndex
unfolding parse_all build_channel_topology_index
build_channel_topology_index_from_files reals files module_config_files =
    parse_all reals files module_config_files >>= λ configs.
    topology_checked (build_channel_topology_index configs)
