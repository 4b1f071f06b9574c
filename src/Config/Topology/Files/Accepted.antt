-- ===== src/Config/Topology/Files/Accepted.antt =====
-- What a module's configuration that is read from a file satisfies.
use mould_system_backend.Common.{
  ℕ, suc, Bool, true, false, not, ◌&&◌, Bytes, List, [], ◌∷◌, ◌++◌, ◌==◌, ◌≡◌, refl, ap, subst,
  arith, Bool-cases, inl, inr, mem_bytes, Dict, Checked, done, refused, >>=-done, require,
  require-done,
}
use mould_system_backend.Config.Json.Tree.{JValue, JObject, no_members, member, find_object_key}
use mould_system_backend.Config.Json.Reader.{peek, ws}
use mould_system_backend.Config.Streams.{getline_all}
use mould_system_backend.Config.Topology.{ChannelEndpointConfig, ModuleChannelConfig}
use mould_system_backend.Config.Topology.Files.{
  ConfigError, invalid_channel_name, params_not_object, duplicate_output_channel, root_not_object,
  is_valid_channel_name, endpoint_of, members_of, both_sides, json_root, parse_channel_params,
  parse_side, parse_module_channel_config_text, Reals, json_document, Files, opened,
  input_channel_key, output_channel_key,
}
use mould_system_backend.Config.Topology.Files.Lines.{
  LineError, Role, input, output, channels_of, add_endpoint, duplicate_output, parse_line,
  parse_lines, parse_words, words_of, trim, is_skipped, numbered, lines_outcome, json_outcome,
  content_of, role_of, without_colon, invalid_channel, parse_param_tokens,
  parse_module_channel_config_content, parse_module_channel_config_file,
}

abbrev pub AreValid : List ChannelEndpointConfig → Type 0
AreValid [] = Unit {0}
AreValid (e ∷ es) = (is_valid_channel_name e.channel ≡ true) × AreValid es

-- No channel of the list is among the names or repeats an earlier one.
abbrev pub AreFresh : List Bytes → List ChannelEndpointConfig → Type 0
AreFresh seen [] = Unit {0}
AreFresh seen (e ∷ es) = (mem_bytes e.channel seen ≡ false) × AreFresh (e.channel ∷ seen) es

-- The module has the name, its channels have valid names, and its output channels are not repeated.
pub record IsModuleConfig (name : Bytes) (config : ModuleChannelConfig) : Type 0 where
  pub named : config.module_name ≡ name
  pub inputs_valid : AreValid config.input_channels
  pub outputs_valid : AreValid config.output_channels
  pub outputs_distinct : AreFresh [] config.output_channels

abbrev endpoints_or :
    List ChannelEndpointConfig
    → Checked ConfigError (List ChannelEndpointConfig)
    → List ChannelEndpointConfig
endpoints_or es (done fs) = fs
endpoints_or es (refused e) = es

parse_side-parts :
    (print_real : Bytes → Bytes) (is_output : Bool) (seen : List Bytes) (channel : Bytes)
    (v : JValue) (rest : JObject) {es : List ChannelEndpointConfig}
    → parse_side print_real is_output seen (member channel v rest) ≡ done es
    → (params : Dict Bytes) × (others : List ChannelEndpointConfig) × (is_valid_channel_name channel
        ≡ true)
      × (not (is_output && mem_bytes channel seen) ≡ true)
      × (parse_side print_real is_output (channel ∷ seen) rest ≡ done others)
      × (endpoint_of channel params ∷ others ≡ es)
unfolding parse_side
parse_side-parts print_real is_output seen channel v rest {es} h =
    let (_, valid, h1) =
      >>=-done (require (is_valid_channel_name channel) (invalid_channel_name channel)) _ h in
    let (o, _, h2) = >>=-done (members_of (params_not_object channel) v) _ h1 in
    let (params, _, h3) = >>=-done (parse_channel_params print_real o []) _ h2 in
    let (_, fresh, h4) =
      >>=-done
        (require (not (is_output && mem_bytes channel seen)) (duplicate_output_channel channel)) _
        h3 in
    let (others, h5, h6) = >>=-done (parse_side print_real is_output (channel ∷ seen) rest) _ h4 in
    (
      params,
      others,
      require-done (is_valid_channel_name channel) (invalid_channel_name channel) valid,
      require-done (not (is_output && mem_bytes channel seen)) (duplicate_output_channel channel)
          fresh,
      h5,
      ap (endpoints_or es) h6,
    )

parse_side-AreValid :
    (print_real : Bytes → Bytes) (is_output : Bool) (seen : List Bytes) (o : JObject)
    {es : List ChannelEndpointConfig}
    → parse_side print_real is_output seen o ≡ done es
    → AreValid es
unfolding parse_side
parse_side-AreValid print_real is_output seen no_members h =
    subst AreValid (ap (endpoints_or []) h) tt
parse_side-AreValid print_real is_output seen (member channel v rest) h =
    let (params, others, valid, _, h', e) =
      parse_side-parts print_real is_output seen channel v rest h in
    subst AreValid e (valid, parse_side-AreValid print_real is_output (channel ∷ seen) rest h')

parse_side-AreFresh :
    (print_real : Bytes → Bytes) (seen : List Bytes) (o : JObject) {es : List ChannelEndpointConfig}
    → parse_side print_real true seen o ≡ done es
    → AreFresh seen es
unfolding parse_side
parse_side-AreFresh print_real seen no_members h = subst (AreFresh seen) (ap (endpoints_or []) h) tt
parse_side-AreFresh print_real seen (member channel v rest) h =
    let (params, others, _, fresh, h', e) =
      parse_side-parts print_real true seen channel v rest h in
    subst (AreFresh seen) e (ground arith, parse_side-AreFresh print_real (channel ∷ seen) rest h')

abbrev config_or :
    {E : Type 0} → ModuleChannelConfig → Checked E ModuleChannelConfig → ModuleChannelConfig
config_or c (done d) = d
config_or c (refused e) = c

pub parse_module_channel_config_text-IsModuleConfig :
    (reals : Reals) (name content : Bytes) {config : ModuleChannelConfig}
    → parse_module_channel_config_text reals name content ≡ done config
    → IsModuleConfig name config
unfolding parse_module_channel_config_text
parse_module_channel_config_text-IsModuleConfig reals name content {config} h =
    let (root, _, h1) = >>=-done (json_root (json_document reals content)) _ h in
    let (o, _, h2) = >>=-done (members_of root_not_object root) _ h1 in
    let (sides, _, h3) =
      >>=-done
        (both_sides (find_object_key input_channel_key o) (find_object_key output_channel_key o)) _
        h2 in
    let (inputs, i, h4) = >>=-done (parse_side reals.print_real false [] sides.0) _ h3 in
    let (outputs, o', h5) = >>=-done (parse_side reals.print_real true [] sides.1) _ h4 in
    subst (IsModuleConfig name) (ap (config_or config) h5) (record {
      named = refl;
      inputs_valid = parse_side-AreValid reals.print_real false [] sides.0 i;
      outputs_valid = parse_side-AreValid reals.print_real true [] sides.1 o';
      outputs_distinct = parse_side-AreFresh reals.print_real [] sides.1 o';
    })

AreValid-snoc :
    (es : List ChannelEndpointConfig) (e : ChannelEndpointConfig)
    → AreValid es
    → is_valid_channel_name e.channel ≡ true
    → AreValid (es ++ e ∷ [])
AreValid-snoc [] e h valid = (valid, tt)
AreValid-snoc (x ∷ es) e h valid = (h.0, AreValid-snoc es e h.1 valid)

AreFresh-snoc :
    (seen : List Bytes) (es : List ChannelEndpointConfig) (e : ChannelEndpointConfig)
    → AreFresh seen es
    → mem_bytes e.channel seen ≡ false
    → mem_bytes e.channel (channels_of es) ≡ false
    → AreFresh seen (es ++ e ∷ [])
AreFresh-snoc seen [] e h out new = (out, tt)
AreFresh-snoc seen (x ∷ es) e h out new =
    (h.0, AreFresh-snoc (x.channel ∷ seen) es e h.1 (ground arith) (ground arith))

add_endpoint-IsModuleConfig :
    (name : Bytes) (role : Role) (e : ChannelEndpointConfig) (parsed : ModuleChannelConfig)
    {config : ModuleChannelConfig}
    → IsModuleConfig name parsed
    → is_valid_channel_name e.channel ≡ true
    → add_endpoint (role, e) parsed ≡ done config
    → IsModuleConfig name config
unfolding add_endpoint
add_endpoint-IsModuleConfig name input e parsed h valid f =
    subst (IsModuleConfig name) (ap (config_or parsed) f) (record {
      named = h.named;
      inputs_valid = AreValid-snoc parsed.input_channels e h.inputs_valid valid;
      outputs_valid = h.outputs_valid;
      outputs_distinct = h.outputs_distinct;
    })
add_endpoint-IsModuleConfig name output e parsed h valid f =
    let fresh = not (mem_bytes e.channel (channels_of parsed.output_channels)) in
    let (_, g, f') = >>=-done (require fresh (duplicate_output e.channel)) _ f in
    let new = require-done fresh (duplicate_output e.channel) g in
    subst (IsModuleConfig name) (ap (config_or parsed) f') (record {
      named = h.named;
      inputs_valid = h.inputs_valid;
      outputs_valid = AreValid-snoc parsed.output_channels e h.outputs_valid valid;
      outputs_distinct =
          AreFresh-snoc [] parsed.output_channels e h.outputs_distinct refl (ground arith);
    })

abbrev pair_or :
    Role × ChannelEndpointConfig
    → Checked LineError (Role × ChannelEndpointConfig)
    → Role × ChannelEndpointConfig
pair_or p (done q) = q
pair_or p (refused e) = p

parse_words-valid :
    (words : List Bytes) {found : Role × ChannelEndpointConfig}
    → parse_words words ≡ done found
    → is_valid_channel_name (found.1).channel ≡ true
unfolding parse_words
parse_words-valid [] h = cc
parse_words-valid (role_name ∷ []) h = cc
parse_words-valid (role_name ∷ channel ∷ tokens) {found} h =
    let (role, _, h1) = >>=-done (role_of (without_colon role_name)) _ h in
    let (_, valid, h2) =
      >>=-done (require (is_valid_channel_name channel) (invalid_channel channel)) _ h1 in
    let (params, _, h3) = >>=-done (parse_param_tokens tokens []) _ h2 in
    subst (λ f. is_valid_channel_name (f.1).channel ≡ true) (ap (pair_or found) h3)
      (require-done (is_valid_channel_name channel) (invalid_channel channel) valid)

parse_line-IsModuleConfig :
    (name line : Bytes) (parsed : ModuleChannelConfig) {config : ModuleChannelConfig}
    → IsModuleConfig name parsed
    → parse_line line parsed ≡ done config
    → IsModuleConfig name config
unfolding parse_line
parse_line-IsModuleConfig name line parsed h f = elim (Bool-cases (is_skipped (trim line))) [
  | inl e ↦ subst (IsModuleConfig name) (ap (config_or parsed) (rw (parse_line, e) at f)) h
  | inr e ↦
      let (found, g, k) =
        >>=-done (parse_words (words_of (trim line))) (λ found. add_endpoint found parsed)
          (rw (parse_line, e) at f) in
      add_endpoint-IsModuleConfig name found.0 found.1 parsed h
        (parse_words-valid (words_of (trim line)) g) k
]

numbered-done :
    (n : ℕ) (r : Checked LineError ModuleChannelConfig) {c : ModuleChannelConfig}
    → numbered n r ≡ done c
    → r ≡ done c
numbered-done n (done d) h = ap (λ x. done x) (ap (config_or d) h)
numbered-done n (refused e) h = cc

parse_lines-IsModuleConfig :
    (name : Bytes) (n : ℕ) (lines : List Bytes) (parsed : ModuleChannelConfig)
    {config : ModuleChannelConfig}
    → IsModuleConfig name parsed
    → parse_lines n lines parsed ≡ done config
    → IsModuleConfig name config
unfolding parse_lines
parse_lines-IsModuleConfig name n [] parsed h f =
    subst (IsModuleConfig name) (ap (config_or parsed) f) h
parse_lines-IsModuleConfig name n (line ∷ lines) parsed h f =
    let (next, g, k) =
      >>=-done (numbered n (parse_line line parsed)) (parse_lines (suc n) lines) f in
    parse_lines-IsModuleConfig name (suc n) lines next
      (parse_line-IsModuleConfig name line parsed h (numbered-done n (parse_line line parsed) g)) k

json_outcome-done :
    (r : Checked ConfigError ModuleChannelConfig) {c : ModuleChannelConfig}
    → json_outcome r ≡ done c
    → r ≡ done c
json_outcome-done (done d) h = ap (λ x. done x) (ap (config_or d) h)
json_outcome-done (refused e) h = cc

lines_outcome-done :
    (r : Checked (ℕ × LineError) ModuleChannelConfig) {c : ModuleChannelConfig}
    → lines_outcome r ≡ done c
    → r ≡ done c
lines_outcome-done (done d) h = ap (λ x. done x) (ap (config_or d) h)
lines_outcome-done (refused (n, e)) h = cc

-- A configuration that is accepted from a file, of JSON or of lines, has the module's name; the names
-- of its channels are valid, and its output channels are pairwise distinct.
pub parse_module_channel_config_file-IsModuleConfig :
    (reals : Reals) (files : Files) (name path : Bytes) (config : ModuleChannelConfig)
    → parse_module_channel_config_file reals files name path ≡ done config
    → IsModuleConfig name config
unfolding parse_module_channel_config_file
parse_module_channel_config_file-IsModuleConfig reals files name path config h =
    let (content, _, f) =
      >>=-done (content_of (opened (files path))) (parse_module_channel_config_content reals name)
        h in
    elim (Bool-cases (peek (ws content) == b'{')) [
      | inl e ↦ parse_module_channel_config_text-IsModuleConfig reals name content (
          json_outcome-done (parse_module_channel_config_text reals name content)
            (rw (parse_module_channel_config_content, e) at f))
      | inr e ↦
          parse_lines-IsModuleConfig name 1 (getline_all b'\n' content) _
            (record { named = refl; inputs_valid = tt; outputs_valid = tt; outputs_distinct = tt })
            (lines_outcome-done _ (rw (parse_module_channel_config_content, e) at f))
    ]
