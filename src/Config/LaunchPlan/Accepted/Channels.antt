-- ===== src/Config/LaunchPlan/Accepted/Channels.antt =====
-- The channels that are accepted from a module's file.
use mould_system_backend.Common.{
  Bool, true, false, not, ◌&&◌, Bytes, List, [], ◌∷◌, ◌≡◌, refl, ap, subst, arith, mem_bytes, Dict,
  Checked, done, refused, >>=-done, require, require-done,
}
use mould_system_backend.Config.Json.Tree.{JValue, JObject, no_members, member, find_object_key}
use mould_system_backend.Config.Topology.{ChannelEndpointConfig, ModuleChannelConfig}
use mould_system_backend.Config.Topology.Files.{
  is_valid_channel_name, endpoint_of, input_channel_key, output_channel_key,
}
use mould_system_backend.Config.Topology.Files.Accepted.{AreValid, AreFresh, IsModuleConfig}
use mould_system_backend.Config.LaunchPlan.{
  Doubles, Host, PlanError, channel_name_invalid, channel_params_not_object, output_repeated,
  side_not_object, io_root_not_object, input_missing, output_missing, io_file_not_found,
}
use mould_system_backend.Config.LaunchPlan.Io.{
  members_or, present, readable, known_keys, parse_json_tree, parse_params, parse_channels,
  parse_channel_dict, parse_module_io_json, parse_module_io_json_file,
}

abbrev endpoints_or :
    List ChannelEndpointConfig
    → Checked PlanError (List ChannelEndpointConfig)
    → List ChannelEndpointConfig
endpoints_or es (done fs) = fs
endpoints_or es (refused e) = es

parse_channels-parts :
    (doubles : Doubles) (is_output : Bool) (seen : List Bytes) (channel : Bytes) (v : JValue)
    (rest : JObject) {es : List ChannelEndpointConfig}
    → parse_channels doubles is_output seen (member channel v rest) ≡ done es
    → (params : Dict Bytes) × (others : List ChannelEndpointConfig) × (is_valid_channel_name channel
        ≡ true)
      × (not (is_output && mem_bytes channel seen) ≡ true)
      × (parse_channels doubles is_output (channel ∷ seen) rest ≡ done others)
      × (endpoint_of channel params ∷ others ≡ es)
unfolding parse_channels
parse_channels-parts doubles is_output seen channel v rest {es} h =
    let (_, valid, h1) =
      >>=-done (require (is_valid_channel_name channel) (channel_name_invalid channel)) _ h in
    let (o, _, h2) = >>=-done (members_or (channel_params_not_object channel) v) _ h1 in
    let (params, _, h3) = >>=-done (parse_params doubles o []) _ h2 in
    let (_, fresh, h4) =
      >>=-done (require (not (is_output && mem_bytes channel seen)) (output_repeated channel)) _
        h3 in
    let (others, h5, h6) = >>=-done (parse_channels doubles is_output (channel ∷ seen) rest) _ h4 in
    (
      params,
      others,
      require-done (is_valid_channel_name channel) (channel_name_invalid channel) valid,
      require-done (not (is_output && mem_bytes channel seen)) (output_repeated channel) fresh,
      h5,
      ap (endpoints_or es) h6,
    )

parse_channels-AreValid :
    (doubles : Doubles) (is_output : Bool) (seen : List Bytes) (o : JObject)
    {es : List ChannelEndpointConfig}
    → parse_channels doubles is_output seen o ≡ done es
    → AreValid es
unfolding parse_channels
parse_channels-AreValid doubles is_output seen no_members h =
    subst AreValid (ap (endpoints_or []) h) tt
parse_channels-AreValid doubles is_output seen (member channel v rest) h =
    let (params, others, valid, _, h', e) =
      parse_channels-parts doubles is_output seen channel v rest h in
    subst AreValid e (valid, parse_channels-AreValid doubles is_output (channel ∷ seen) rest h')

parse_channels-AreFresh :
    (doubles : Doubles) (seen : List Bytes) (o : JObject) {es : List ChannelEndpointConfig}
    → parse_channels doubles true seen o ≡ done es
    → AreFresh seen es
unfolding parse_channels
parse_channels-AreFresh doubles seen no_members h =
    subst (AreFresh seen) (ap (endpoints_or []) h) tt
parse_channels-AreFresh doubles seen (member channel v rest) h =
    let (params, others, _, fresh, h', e) =
      parse_channels-parts doubles true seen channel v rest h in
    subst (AreFresh seen) e (ground arith, parse_channels-AreFresh doubles (channel ∷ seen) rest h')

parse_module_io_json-IsModuleConfig :
    (doubles : Doubles) (name path : Bytes) (root : JValue) {config : ModuleChannelConfig}
    → parse_module_io_json doubles name path root ≡ done config
    → IsModuleConfig name config
unfolding parse_module_io_json parse_channel_dict
parse_module_io_json-IsModuleConfig doubles name path root {config} h =
    let (o, _, h1) = >>=-done (members_or (io_root_not_object path) root) _ h in
    let (in_node, _, h2) =
      >>=-done (present (input_missing name) (find_object_key input_channel_key o)) _ h1 in
    let (out_node, _, h3) =
      >>=-done (present (output_missing name) (find_object_key output_channel_key o)) _ h2 in
    let (_, _, h4) = >>=-done (known_keys (input_channel_key ∷ output_channel_key ∷ []) o) _ h3 in
    let (inputs, i, h5) =
      >>=-done (parse_channel_dict doubles input_channel_key false in_node) _ h4 in
    let (outputs, u, h6) =
      >>=-done (parse_channel_dict doubles output_channel_key true out_node) _ h5 in
    let (ins, _, i') =
      >>=-done (members_or (side_not_object input_channel_key) in_node)
        (parse_channels doubles false []) i in
    let (outs, _, u') =
      >>=-done (members_or (side_not_object output_channel_key) out_node)
        (parse_channels doubles true []) u in
    subst (IsModuleConfig name) (ap (config_or config) h6) (record {
      named = refl;
      inputs_valid = parse_channels-AreValid doubles false [] ins i';
      outputs_valid = parse_channels-AreValid doubles true [] outs u';
      outputs_distinct = parse_channels-AreFresh doubles [] outs u';
    })
  where
    config_or : ModuleChannelConfig → Checked PlanError ModuleChannelConfig → ModuleChannelConfig
    config_or c (done d) = d
    config_or c (refused e) = c

pub parse_module_io_json_file-IsModuleConfig :
    (host : Host) (name path : Bytes) {config : ModuleChannelConfig}
    → parse_module_io_json_file host name path ≡ done config
    → IsModuleConfig name config
unfolding parse_module_io_json_file
parse_module_io_json_file-IsModuleConfig host name path h =
    let (content, _, h1) = >>=-done (readable (io_file_not_found path) (host.files path)) _ h in
    let (root, _, h2) = >>=-done (parse_json_tree host.doubles content) _ h1 in
    parse_module_io_json-IsModuleConfig host.doubles name path root h2
