-- ===== src/Config/Topology/Build.antt =====
-- Merging the modules' channels into one index, and the checks of its entries.
use mould_system_backend.Common.{
  ℕ, Bool, true, false, ◌&&◌, ◌||◌, Bytes, bytes_eq, is_empty, Option, none, some, List, [], ◌∷◌,
  ◌++◌, ◌+◌, ◌==◌, ltb, leb, if◌then◌else◌, length, map, Dict, find, emplace, assign, mem_bytes,
  Checked, done, refused, ◌>>=◌, require,
}
use mould_system_backend.Config.Topology.{
  ChannelEndpointConfig, ModuleChannelConfig, ChannelTopologyEntry, ChannelTopologyIndex,
  ChannelPayloadType, unknown, protobuf, image, binary_blob, TopologyError, parameter_conflict,
  multiple_producers, invalid_delivery_mode, unknown_payload_type, schema_mismatch,
}

abbrev pub new_entry : Bytes → ChannelTopologyEntry
new_entry channel = record {
  channel = channel;
  producers = [];
  consumers = [];
  consumer_count = 0;
  params = [];
}

abbrev pub entry_or_new : Bytes → Option ChannelTopologyEntry → ChannelTopologyEntry
entry_or_new channel none = new_entry channel
entry_or_new channel (some e) = record e { channel = channel }

-- `topology[channel]`.
abbrev pub entry_of : Bytes → ChannelTopologyIndex → ChannelTopologyEntry
entry_of channel topology = entry_or_new channel (find channel topology)

unfoldable pub merge_param : Bytes → Bytes → Bytes → Dict Bytes → Checked TopologyError (Dict Bytes)
merge_param channel key value params = elim (find key params) [
  | none ↦ done (emplace key value params)
  | some w ↦ require (bytes_eq w value) (parameter_conflict channel key) >>= λ _. done params
]

unfoldable pub merge_params : Bytes → Dict Bytes → Dict Bytes → Checked TopologyError (Dict Bytes)
unfolding merge_param
merge_params channel [] params = done params
merge_params channel ((k, v) ∷ rest) params =
    merge_param channel k v params >>= merge_params channel rest

abbrev pub add_name : Bytes → List Bytes → List Bytes
add_name name names = if mem_bytes name names then names else names ++ name ∷ []

abbrev pub add_producer : Bytes → ChannelTopologyEntry → ChannelTopologyEntry
add_producer name e = record e { producers = add_name name e.producers }

abbrev pub add_consumer : Bytes → ChannelTopologyEntry → ChannelTopologyEntry
add_consumer name e = record e {
  consumers = add_name name e.consumers;
  consumer_count =
      if mem_bytes name e.consumers then e.consumer_count else length (add_name name e.consumers);
}

-- One endpoint: its parameters, then the name of the module.
unfoldable pub merge_endpoint :
    (ChannelTopologyEntry → ChannelTopologyEntry)
    → ChannelEndpointConfig
    → ChannelTopologyIndex
    → Checked TopologyError ChannelTopologyIndex
unfolding merge_params
merge_endpoint add endpoint topology =
    let e = entry_of endpoint.channel topology in
    merge_params endpoint.channel endpoint.params e.params >>= λ params.
    done (assign endpoint.channel (add (record e { params = params })) topology)

unfoldable pub merge_endpoints :
    (ChannelTopologyEntry → ChannelTopologyEntry)
    → List ChannelEndpointConfig
    → ChannelTopologyIndex
    → Checked TopologyError ChannelTopologyIndex
unfolding merge_endpoint
merge_endpoints add [] topology = done topology
merge_endpoints add (e ∷ es) topology = merge_endpoint add e topology >>= merge_endpoints add es

unfoldable pub merge_module :
    ModuleChannelConfig → ChannelTopologyIndex → Checked TopologyError ChannelTopologyIndex
unfolding merge_endpoints
merge_module config topology =
    merge_endpoints (add_producer config.module_name) config.output_channels topology
    >>= merge_endpoints (add_consumer config.module_name) config.input_channels

unfoldable pub merge_modules :
    List ModuleChannelConfig → ChannelTopologyIndex → Checked TopologyError ChannelTopologyIndex
unfolding merge_module
merge_modules [] topology = done topology
merge_modules (m ∷ ms) topology = merge_module m topology >>= merge_modules ms

-- The order of `std::string`, by bytes.
unfoldable pub string_less : Bytes → Bytes → Bool
string_less [] [] = false
string_less [] (y ∷ ys) = true
string_less (x ∷ xs) [] = false
string_less (x ∷ xs) (y ∷ ys) =
    let rest = string_less xs ys in if ltb x y then true else if x == y then rest else false

unfoldable pub insert_name : Bytes → List Bytes → List Bytes
unfolding string_less
insert_name n [] = n ∷ []
insert_name n (m ∷ ms) =
    let rest = insert_name n ms in if string_less m n then m ∷ rest else n ∷ m ∷ ms

-- `std::sort` of names.
unfoldable pub sort_names : List Bytes → List Bytes
unfolding insert_name
sort_names [] = []
sort_names (n ∷ ns) = insert_name n (sort_names ns)

-- `std::tolower` of an ASCII letter.
abbrev pub to_lower : ℕ → ℕ
to_lower c = if leb b'A' c && leb c b'Z' then c + 32 else c

abbrev pub to_lower_ascii : Bytes → Bytes
to_lower_ascii = map to_lower

abbrev pub broadcast_name : Bytes
broadcast_name = b'b' ∷ b'r' ∷ b'o' ∷ b'a' ∷ b'd' ∷ b'c' ∷ b'a' ∷ b's' ∷ b't' ∷ []

abbrev pub compete_name : Bytes
compete_name = b'c' ∷ b'o' ∷ b'm' ∷ b'p' ∷ b'e' ∷ b't' ∷ b'e' ∷ []

abbrev pub delivery_mode_key : Bytes
delivery_mode_key =
    b'd' ∷ b'e' ∷ b'l' ∷ b'i' ∷ b'v' ∷ b'e' ∷ b'r' ∷ b'y' ∷ b'_' ∷ b'm' ∷ b'o' ∷ b'd' ∷ b'e' ∷ []

unfoldable pub is_valid_shm_bus_delivery_mode_param_value : Bytes → Bool
is_valid_shm_bus_delivery_mode_param_value value =
    is_empty value
    || bytes_eq (to_lower_ascii value) broadcast_name
    || bytes_eq (to_lower_ascii value) compete_name

abbrev pub value_or_empty : Option Bytes → Bytes
value_or_empty none = []
value_or_empty (some v) = v

unfoldable pub param_or_empty : Dict Bytes → Bytes → Bytes
param_or_empty params key = value_or_empty (find key params)

abbrev pub payload_type_key : Bytes
payload_type_key =
    b'p' ∷ b'a' ∷ b'y' ∷ b'l' ∷ b'o' ∷ b'a' ∷ b'd' ∷ b'_' ∷ b't' ∷ b'y' ∷ b'p' ∷ b'e' ∷ []

abbrev pub proto_message_key : Bytes
proto_message_key =
    b'p' ∷ b'r' ∷ b'o' ∷ b't' ∷ b'o' ∷ b'_' ∷ b'm' ∷ b'e' ∷ b's' ∷ b's' ∷ b'a' ∷ b'g' ∷ b'e' ∷ []

abbrev one_of : Bytes → List Bytes → Bool
one_of value names = mem_bytes value names

-- "protobuf", "proto"
abbrev pub protobuf_names : List Bytes
protobuf_names =
    []
    ∷ (b'p' ∷ b'r' ∷ b'o' ∷ b't' ∷ b'o' ∷ b'b' ∷ b'u' ∷ b'f' ∷ [])
    ∷ (b'p' ∷ b'r' ∷ b'o' ∷ b't' ∷ b'o' ∷ [])
    ∷ []

-- "image", "image_binary_meta"
abbrev pub image_names : List Bytes
image_names =
    (b'i' ∷ b'm' ∷ b'a' ∷ b'g' ∷ b'e' ∷ [])
    ∷ (b'i' ∷ b'm' ∷ b'a' ∷ b'g' ∷ b'e' ∷ b'_' ∷ b'b' ∷ b'i' ∷ b'n' ∷ b'a' ∷ b'r' ∷ b'y' ∷ b'_'
        ∷ b'm' ∷ b'e' ∷ b't' ∷ b'a' ∷ [])
    ∷ []

-- "binary", "binary_blob", "raw"
abbrev pub binary_names : List Bytes
binary_names =
    (b'b' ∷ b'i' ∷ b'n' ∷ b'a' ∷ b'r' ∷ b'y' ∷ [])
    ∷ (b'b' ∷ b'i' ∷ b'n' ∷ b'a' ∷ b'r' ∷ b'y' ∷ b'_' ∷ b'b' ∷ b'l' ∷ b'o' ∷ b'b' ∷ [])
    ∷ (b'r' ∷ b'a' ∷ b'w' ∷ [])
    ∷ []

unfoldable pub parse_channel_payload_type : Bytes → ChannelPayloadType
parse_channel_payload_type value =
    if one_of value protobuf_names
    then protobuf
    else if one_of value image_names
    then image
    else if one_of value binary_names
    then binary_blob
    else unknown

unfoldable pub resolve_channel_payload_type : ChannelTopologyEntry → ChannelPayloadType
unfolding parse_channel_payload_type param_or_empty
resolve_channel_payload_type entry =
    parse_channel_payload_type (param_or_empty entry.params payload_type_key)

unfoldable pub validate_channel_schema_governance :
    ChannelTopologyEntry → Checked TopologyError (Unit {0})
unfolding resolve_channel_payload_type param_or_empty
validate_channel_schema_governance entry =
    let message = param_or_empty entry.params proto_message_key in
    elim (resolve_channel_payload_type entry) [
      | unknown ↦
          refused
            (unknown_payload_type entry.channel (param_or_empty entry.params payload_type_key))
      | protobuf ↦
          require (is_empty message || bytes_eq message entry.channel)
            (schema_mismatch entry.channel message)
      | _ ↦ done tt
    ]

abbrev pub mode_ok : Option Bytes → Bool
mode_ok none = true
mode_ok (some mode) = is_valid_shm_bus_delivery_mode_param_value mode

-- The body of the loop over the index.
unfoldable pub check_entry :
    Bytes → ChannelTopologyEntry → Checked TopologyError ChannelTopologyEntry
unfolding sort_names validate_channel_schema_governance is_valid_shm_bus_delivery_mode_param_value
check_entry channel e =
    let sorted : ChannelTopologyEntry = record e {
      producers = sort_names e.producers;
      consumers = sort_names e.consumers;
      consumer_count = length (sort_names e.consumers);
    } in
    let mode = find delivery_mode_key e.params in
    require (leb (length sorted.producers) 1) (multiple_producers channel) >>= λ _.
    require (mode_ok mode) (invalid_delivery_mode channel (value_or_empty mode)) >>= λ _.
    validate_channel_schema_governance sorted >>= λ _. done sorted

unfoldable pub check_entries : ChannelTopologyIndex → Checked TopologyError ChannelTopologyIndex
unfolding check_entry
check_entries [] = done []
check_entries ((channel, e) ∷ rest) = check_entry channel e >>= λ checked.
    check_entries rest >>= λ others. done ((channel, checked) ∷ others)

unfoldable pub build_channel_topology_index :
    List ModuleChannelConfig → Checked TopologyError ChannelTopologyIndex
unfolding merge_modules check_entries
build_channel_topology_index configs = merge_modules configs [] >>= check_entries
