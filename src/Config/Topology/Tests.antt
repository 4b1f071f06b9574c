-- ===== src/Config/Topology/Tests.antt =====
-- Two modules on one channel.
use mould_system_backend.Common.{
  ℕ, false, if◌then◌else◌, Dict, Bytes, bytes_eq, none, some, [], ◌∷◌, ◌≡◌, ◌≤◌, ◌<◌, ◌^◌, refl,
  arith, find, assign, emplace, length, mem_bytes, done, refused,
}
use mould_system_backend.Config.Topology.{
  ChannelEndpointConfig, ModuleChannelConfig, ChannelTopologyEntry, ChannelTopologyIndex,
  multiple_producers,
}
use mould_system_backend.Config.Topology.Build.{
  entry_of, build_channel_topology_index, merge_modules, merge_module, merge_endpoints,
  merge_endpoint, merge_params, merge_param, check_entries, check_entry, sort_names, insert_name,
  string_less, validate_channel_schema_governance, resolve_channel_payload_type,
  parse_channel_payload_type, param_or_empty, is_valid_shm_bus_delivery_mode_param_value,
}
use mould_system_backend.Config.Topology.Merge.{produces, consumes}
use mould_system_backend.Config.Topology.Repeats.{repeats}
use mould_system_backend.Config.Topology.Channels.{build-names, build-one_producer}
use mould_system_backend.Config.Topology.Resolve.{
  shm_consumer_slots_key, resolve_shm_ring_consumer_capacity,
}
use mould_system_backend.Config.Topology.Bounds.{IsSizeText, resolve_shm_ring_consumer_capacity_lem}
use mould_system_backend.Config.Topology.Files.{Reals, Files}
use mould_system_backend.Config.Topology.Files.Lines.{
  parse_module_channel_config_file, parse_module_channel_config_content, parse_lines, parse_line,
  parse_words, parse_param_tokens, parse_param_token, split_equals, words_of, trim, trim_end,
  add_endpoint,
}
use mould_system_backend.Config.Topology.Files.Accepted.{
  IsModuleConfig, parse_module_channel_config_file-IsModuleConfig,
}
use mould_system_backend.Config.Topology.Files.{is_valid_channel_name, is_allowed_channel_char}
use mould_system_backend.Config.Streams.{getline_all}
use mould_system_backend.Config.Decimal.{skip_spaces, is_space, digits_value}
use mould_system_backend.Config.Json.Reader.{ws, is_ws}

abbrev camera : Bytes
camera = b'c' ∷ b'a' ∷ b'm' ∷ []

abbrev viewer : Bytes
viewer = b'v' ∷ b'i' ∷ b'e' ∷ b'w' ∷ []

abbrev frames : Bytes
frames = b'f' ∷ b'r' ∷ b'a' ∷ b'm' ∷ b'e' ∷ b's' ∷ []

abbrev endpoint : Dict Bytes → ChannelEndpointConfig
endpoint params = record { channel = frames; params = params }

abbrev camera_config : ModuleChannelConfig
camera_config = record {
  module_name = camera;
  input_channels = [];
  output_channels = endpoint ((shm_consumer_slots_key, b'4' ∷ []) ∷ []) ∷ [];
}

abbrev viewer_config : ModuleChannelConfig
viewer_config = record {
  module_name = viewer;
  input_channels = endpoint [] ∷ [];
  output_channels = [];
}

abbrev frames_entry : ChannelTopologyEntry
frames_entry = record {
  channel = frames;
  producers = camera ∷ [];
  consumers = viewer ∷ [];
  consumer_count = 1;
  params = (shm_consumer_slots_key, b'4' ∷ []) ∷ [];
}

abbrev topology : ChannelTopologyIndex
topology = (frames, frames_entry) ∷ []

two_modules : build_channel_topology_index (viewer_config ∷ camera_config ∷ []) ≡ done topology
unfolding build_channel_topology_index merge_modules merge_module merge_endpoints merge_endpoint
    merge_params merge_param check_entries check_entry sort_names insert_name string_less
    validate_channel_schema_governance resolve_channel_payload_type parse_channel_payload_type
    param_or_empty is_valid_shm_bus_delivery_mode_param_value find assign emplace
two_modules = refl

second_producer :
    build_channel_topology_index
      (camera_config ∷ record camera_config { module_name = viewer } ∷ [])
    ≡ refused (multiple_producers frames)
unfolding build_channel_topology_index merge_modules merge_module merge_endpoints merge_endpoint
    merge_params merge_param check_entries check_entry sort_names insert_name string_less
    validate_channel_schema_governance resolve_channel_payload_type parse_channel_payload_type
    param_or_empty is_valid_shm_bus_delivery_mode_param_value find assign emplace
second_producer = refl

build-names_example :
    (mem_bytes camera (entry_of frames topology).producers
      ≡ produces frames camera (viewer_config ∷ camera_config ∷ []))
    × (mem_bytes camera (entry_of frames topology).consumers
        ≡ consumes frames camera (viewer_config ∷ camera_config ∷ []))
    × (repeats (entry_of frames topology).producers ≡ false)
    × (repeats (entry_of frames topology).consumers ≡ false)
    × ((entry_of frames topology).consumer_count ≡ length (entry_of frames topology).consumers)
build-names_example =
    build-names (viewer_config ∷ camera_config ∷ []) topology two_modules frames camera

build-one_producer_example : camera ≡ camera
build-one_producer_example =
    build-one_producer (viewer_config ∷ camera_config ∷ []) topology two_modules frames camera
      camera refl refl

size_text : IsSizeText (find shm_consumer_slots_key frames_entry.params)
unfolding find digits_value
size_text digits = omega arith

resolve_shm_ring_consumer_capacity_lem_example :
    (capacity : ℕ) × (resolve_shm_ring_consumer_capacity (some frames_entry) 2 ≡ some capacity)
    × (1 ≤ capacity)
    × (capacity < 2 ^ 32)
    × (frames_entry.consumer_count ≤ capacity)
resolve_shm_ring_consumer_capacity_lem_example =
    resolve_shm_ring_consumer_capacity_lem frames_entry 2 (omega arith) (omega arith) size_text

abbrev lines_text : Bytes
lines_text =
    b'#' ∷ b' ' ∷ b'c' ∷ b'a' ∷ b'm' ∷ b'\n' ∷ b'o' ∷ b'u' ∷ b't' ∷ b'p' ∷ b'u' ∷ b't' ∷ b':' ∷ b' '
    ∷ b'f' ∷ b'r' ∷ b'a' ∷ b'm' ∷ b'e' ∷ b's' ∷ b' ' ∷ b'k' ∷ b'=' ∷ b'v' ∷ b'\n' ∷ b'\n' ∷ b'i'
    ∷ b'n' ∷ b'p' ∷ b'u' ∷ b't' ∷ b' ' ∷ b'f' ∷ b'r' ∷ b'a' ∷ b'm' ∷ b'e' ∷ b's' ∷ []

abbrev lines_path : Bytes
lines_path = b'c' ∷ b'a' ∷ b'm' ∷ b'.' ∷ b't' ∷ b'x' ∷ b't' ∷ []

abbrev no_reals : Reals
no_reals = record { stod_converts = λ token. false; print_real = λ token. token }

abbrev one_file : Files
one_file path = if bytes_eq path lines_path then some lines_text else none

abbrev lines_config : ModuleChannelConfig
lines_config = record {
  module_name = camera;
  input_channels = endpoint [] ∷ [];
  output_channels = endpoint ((b'k' ∷ [], b'v' ∷ []) ∷ []) ∷ [];
}

lines_read :
    parse_module_channel_config_file no_reals one_file camera lines_path ≡ done lines_config
unfolding parse_module_channel_config_file parse_module_channel_config_content parse_lines
    parse_line parse_words parse_param_tokens parse_param_token split_equals words_of trim trim_end
    add_endpoint is_valid_channel_name is_allowed_channel_char getline_all skip_spaces is_space ws
    is_ws find emplace
lines_read = refl

parse_module_channel_config_file-IsModuleConfig_example : IsModuleConfig camera lines_config
parse_module_channel_config_file-IsModuleConfig_example =
    parse_module_channel_config_file-IsModuleConfig no_reals one_file camera lines_path lines_config
      lines_read
