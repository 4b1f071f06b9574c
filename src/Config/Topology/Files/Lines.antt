-- ===== src/Config/Topology/Files/Lines.antt =====
-- The text format of a module's channels: a role, a channel and its parameters on each line.
use mould_system_backend.Common.{
  ℕ, suc, Bool, true, false, not, ◌&&◌, ◌||◌, Bytes, bytes_eq, is_empty, Option, none, some, List,
  [], ◌∷◌, ◌++◌, ◌==◌, if◌then◌else◌, Dict, find, emplace, mem_bytes, Checked, done, refused, ◌>>=◌,
  require,
}
use mould_system_backend.Config.Decimal.{is_space, skip_spaces}
use mould_system_backend.Config.Streams.{getline_all}
use mould_system_backend.Config.Json.Reader.{ws, peek}
use mould_system_backend.Config.Topology.{ChannelEndpointConfig, ModuleChannelConfig}
use mould_system_backend.Config.Topology.Files.{
  ConfigError, is_valid_channel_name, endpoint_of, Reals, Files, opened,
  parse_module_channel_config_text,
}

unfoldable pub trim_end : Bytes → Bytes
unfolding is_space
trim_end [] = []
trim_end (c ∷ cs) = let rest = trim_end cs in if is_empty rest && is_space c then [] else c ∷ rest

unfoldable pub trim : Bytes → Bytes
unfolding trim_end skip_spaces
trim value = trim_end (skip_spaces value)

-- The flag says that the character before belongs to the first word.
abbrev add_to_word : Bool → ℕ → List Bytes → List Bytes
add_to_word true c (word ∷ rest) = (c ∷ word) ∷ rest
add_to_word _ c rest = (c ∷ []) ∷ rest

abbrev starts_word : Bytes → Bool
starts_word [] = false
starts_word (c ∷ cs) = not (is_space c)

-- What repeated `>>` of a string gives.
unfoldable pub words_of : Bytes → List Bytes
unfolding is_space
words_of [] = []
words_of (c ∷ cs) =
    let rest = words_of cs in if is_space c then rest else add_to_word (starts_word cs) c rest

-- The text in front of the first `=` and the text behind it.
unfoldable pub split_equals : Bytes → Option (Bytes × Bytes)
split_equals [] = none
split_equals (c ∷ cs) =
    let rest = split_equals cs in if c == b'=' then some ([], cs) else longer c rest
  where
    longer : ℕ → Option (Bytes × Bytes) → Option (Bytes × Bytes)
    longer c none = none
    longer c (some (key, value)) = some (c ∷ key, value)

-- The texts of the errors of a line.
pub data LineError : Type 0 where
  role_and_channel_expected unknown_role : LineError
  invalid_channel invalid_parameter conflicting_parameter duplicate_output : Bytes → LineError

abbrev pub agreed : Option Bytes → Bytes → Bool
agreed none value = true
agreed (some w) value = bytes_eq w value

abbrev pub key_and_value : Bytes → Option (Bytes × Bytes) → Checked LineError (Bytes × Bytes)
key_and_value token none = refused (invalid_parameter token)
key_and_value token (some (key, value)) =
    require (not (is_empty key || is_empty value)) (invalid_parameter token) >>= λ _.
    done (key, value)

unfoldable pub parse_param_token : Bytes → Dict Bytes → Checked LineError (Dict Bytes)
unfolding split_equals
parse_param_token token params = key_and_value token (split_equals token) >>= λ pair.
    require (agreed (find pair.0 params) pair.1) (conflicting_parameter pair.0) >>= λ _.
    done (emplace pair.0 pair.1 params)

unfoldable pub parse_param_tokens : List Bytes → Dict Bytes → Checked LineError (Dict Bytes)
unfolding parse_param_token
parse_param_tokens [] params = done params
parse_param_tokens (token ∷ tokens) params =
    parse_param_token token params >>= parse_param_tokens tokens

pub data Role : Type 0 where
  input output : Role

-- A role may end with a colon.
abbrev pub without_colon : Bytes → Bytes
without_colon [] = []
without_colon (c ∷ []) = if c == b':' then [] else c ∷ []
without_colon (c ∷ d ∷ cs) = c ∷ without_colon (d ∷ cs)

abbrev pub input_role : Bytes
input_role = b'i' ∷ b'n' ∷ b'p' ∷ b'u' ∷ b't' ∷ []

abbrev pub output_role : Bytes
output_role = b'o' ∷ b'u' ∷ b't' ∷ b'p' ∷ b'u' ∷ b't' ∷ []

abbrev pub role_of : Bytes → Checked LineError Role
role_of name =
    if bytes_eq name input_role
    then done input
    else if bytes_eq name output_role
    then done output
    else refused unknown_role

-- The words of a line that is not empty and not a comment.
unfoldable pub parse_words : List Bytes → Checked LineError (Role × ChannelEndpointConfig)
unfolding is_valid_channel_name parse_param_tokens
parse_words (role_name ∷ channel ∷ tokens) = role_of (without_colon role_name) >>= λ role.
    require (is_valid_channel_name channel) (invalid_channel channel) >>= λ _.
    parse_param_tokens tokens [] >>= λ params. done (role, endpoint_of channel params)
parse_words _ = refused role_and_channel_expected

abbrev pub channels_of : List ChannelEndpointConfig → List Bytes
channels_of [] = []
channels_of (e ∷ es) = e.channel ∷ channels_of es

-- An endpoint goes to its side; an output channel is not repeated.
unfoldable pub add_endpoint :
    Role × ChannelEndpointConfig → ModuleChannelConfig → Checked LineError ModuleChannelConfig
add_endpoint (input, e) parsed =
    done (record parsed { input_channels = parsed.input_channels ++ e ∷ [] })
add_endpoint (output, e) parsed =
    require (not (mem_bytes e.channel (channels_of parsed.output_channels)))
      (duplicate_output e.channel)
    >>= λ _. done (record parsed { output_channels = parsed.output_channels ++ e ∷ [] })

abbrev pub is_skipped : Bytes → Bool
is_skipped [] = true
is_skipped (c ∷ cs) = c == b'#'

unfoldable pub parse_line : Bytes → ModuleChannelConfig → Checked LineError ModuleChannelConfig
unfolding trim words_of parse_words add_endpoint
parse_line line parsed = elim (is_skipped (trim line)) [
  | true ↦ done parsed
  | false ↦ parse_words (words_of (trim line)) >>= λ found. add_endpoint found parsed
]

abbrev pub numbered :
    ℕ → Checked LineError ModuleChannelConfig → Checked (ℕ × LineError) ModuleChannelConfig
numbered line_no (done c) = done c
numbered line_no (refused e) = refused (line_no, e)

-- An error carries the number of its line.
unfoldable pub parse_lines :
    ℕ → List Bytes → ModuleChannelConfig → Checked (ℕ × LineError) ModuleChannelConfig
unfolding parse_line
parse_lines line_no [] parsed = done parsed
parse_lines line_no (line ∷ lines) parsed =
    numbered line_no (parse_line line parsed) >>= parse_lines (suc line_no) lines

pub data FileError : Type 0 where
  json_error : ConfigError → FileError
  line_error : ℕ → LineError → FileError

abbrev pub lines_outcome :
    Checked (ℕ × LineError) ModuleChannelConfig → Checked FileError ModuleChannelConfig
lines_outcome (done c) = done c
lines_outcome (refused (n, e)) = refused (line_error n e)

abbrev pub json_outcome :
    Checked ConfigError ModuleChannelConfig → Checked FileError ModuleChannelConfig
json_outcome (done c) = done c
json_outcome (refused e) = refused (json_error e)

-- A content whose first character, past white space, is a brace is JSON.
unfoldable pub parse_module_channel_config_content :
    Reals → Bytes → Bytes → Checked FileError ModuleChannelConfig
unfolding ws getline_all parse_lines parse_module_channel_config_text
parse_module_channel_config_content reals name content = elim (peek (ws content) == b'{') [
  | true ↦ json_outcome (parse_module_channel_config_text reals name content)
  | false ↦ lines_outcome (
      parse_lines 1 (getline_all b'\n' content)
        (record { module_name = name; input_channels = []; output_channels = [] }))
]

abbrev pub content_of : Checked ConfigError Bytes → Checked FileError Bytes
content_of (done c) = done c
content_of (refused e) = refused (json_error e)

unfoldable pub parse_module_channel_config_file :
    Reals → Files → Bytes → Bytes → Checked FileError ModuleChannelConfig
unfolding parse_module_channel_config_content
parse_module_channel_config_file reals files name path =
    content_of (opened (files path)) >>= parse_module_channel_config_content reals name
