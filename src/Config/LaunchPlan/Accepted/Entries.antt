-- ===== src/Config/LaunchPlan/Accepted/Entries.antt =====
-- The module entries that are accepted from a launch plan.
use mould_system_backend.Common.{
  Bool, true, false, Bytes, bytes_eq, bytes_eq→eq, is_empty, List, [], ◌∷◌, ◌≡◌, refl, sym, ap,
  subst, ◌∙◌, mem_bytes, Dict, Checked, done, refused, >>=-done, require, require-done,
}
use mould_system_backend.Config.Json.Tree.{
  JValue, JObject, null, boolean, integral, real, array, text, no_members, member, object,
  find_object_key, has_key,
}
use mould_system_backend.Config.Json.Within.{IsDistinct}
use mould_system_backend.Config.Topology.Files.Accepted.{IsModuleConfig}
use mould_system_backend.Config.LaunchPlan.{
  Doubles, Host, PlanError, LaunchPlanValidationOptions, ParsedModuleLaunchEntry, LaunchPlanScalar,
  ResourceSchema, entry_not_object, entry_field_missing, entry_name_empty, entry_name_mismatch,
  io_path_empty, module_unregistered,
}
use mould_system_backend.Config.LaunchPlan.Resource.{Resource, validate_and_normalize}
use mould_system_backend.Config.LaunchPlan.Resource.Normal.{validate_and_normalize-idempotent}
use mould_system_backend.Config.LaunchPlan.Io.{
  members_or, present, known_keys, parse_module_io_json_file,
}
use mould_system_backend.Config.LaunchPlan.Fields.{
  module_name_key, resource_key, module_params_key, io_path_key, parse_string_map_scalars,
}
use mould_system_backend.Config.LaunchPlan.Parse.{
  checked_resource, is_registered, non_empty_text, resolve_io_path, entry_fields,
  record_entry_scalars, parse_module_entry, parse_module_entries,
}
use mould_system_backend.Config.LaunchPlan.Accepted.Channels.{
  parse_module_io_json_file-IsModuleConfig,
}

-- With the strict schema, the resource is one that the validator accepts and leaves as it is.
abbrev pub IsStrict : Doubles → Bool → ParsedModuleLaunchEntry → Type 0
IsStrict doubles false entry = Unit {0}
IsStrict doubles true entry =
    validate_and_normalize doubles entry.resource ≡ done (entry.resource, entry.resource_schema)

pub record IsEntry (host : Host) (options : LaunchPlanValidationOptions)
    (entry : ParsedModuleLaunchEntry) : Type 0 where
  pub named : is_empty entry.module_name ≡ false
  pub registered : is_registered options.registered_module_names entry.module_name ≡ true
  pub strict : IsStrict host.doubles options.enforce_strict_resource_schema entry
  pub io : IsModuleConfig entry.module_name entry.channels

-- Entries of distinct names that are not among the names given.
abbrev pub AreEntries :
    Host → LaunchPlanValidationOptions → List Bytes → List ParsedModuleLaunchEntry → Type 0
AreEntries host options names [] = Unit {0}
AreEntries host options names (e ∷ es) =
    IsEntry host options e
    × (mem_bytes e.module_name names ≡ false)
    × AreEntries host options (e.module_name ∷ names) es

abbrev Pair : Type 0
Pair = ParsedModuleLaunchEntry × Dict LaunchPlanScalar

abbrev pair_or : Pair → Checked PlanError Pair → Pair
pair_or p (done q) = q
pair_or p (refused e) = p

non_empty_text-is_empty :
    (e : PlanError) (v : JValue) {name : Bytes}
    → non_empty_text e v ≡ done name
    → is_empty name ≡ false
non_empty_text-is_empty e null h = cc
non_empty_text-is_empty e (boolean b) h = cc
non_empty_text-is_empty e (integral i) h = cc
non_empty_text-is_empty e (real t) h = cc
non_empty_text-is_empty e (text []) h = cc
non_empty_text-is_empty e (text (c ∷ cs)) h = subst (λ t. is_empty t ≡ false) (ap name_in h) refl
  where
    name_in : Checked PlanError Bytes → Bytes
    name_in (done t) = t
    name_in (refused e) = []
non_empty_text-is_empty e (object o) h = cc
non_empty_text-is_empty e (array a) h = cc

checked_resource-IsStrict :
    (doubles : Doubles) (strict : Bool) (raw : Resource) {result : Resource × ResourceSchema}
    → checked_resource doubles strict raw ≡ done result
    → (entry : ParsedModuleLaunchEntry) → entry.resource ≡ result.0
    → entry.resource_schema ≡ result.1
    → IsStrict doubles strict entry
checked_resource-IsStrict doubles false raw h entry e f = tt
checked_resource-IsStrict doubles true raw {result} h entry e f =
    rw (e, f) (validate_and_normalize-idempotent doubles raw result h)

entry_fields-named :
    (key : Bytes) (node : JValue) {fields : Bytes × JValue × JValue × Bytes}
    → entry_fields key node ≡ done fields
    → (is_empty fields.0 ≡ false) × (fields.0 ≡ key)
unfolding entry_fields
entry_fields-named key node {fields} h =
    let (mo, _, h1) = >>=-done (members_or (entry_not_object key) node) _ h in
    let (name_v, _, h2) =
      >>=-done (present (entry_field_missing module_name_key) (find_object_key module_name_key mo))
        _ h1 in
    let (res_v, _, h3) =
      >>=-done (present (entry_field_missing resource_key) (find_object_key resource_key mo)) _
        h2 in
    let (par_v, _, h4) =
      >>=-done
        (present (entry_field_missing module_params_key) (find_object_key module_params_key mo)) _
        h3 in
    let (io_v, _, h5) =
      >>=-done (present (entry_field_missing io_path_key) (find_object_key io_path_key mo)) _ h4 in
    let (name, n, h6) = >>=-done (non_empty_text (entry_name_empty key) name_v) _ h5 in
    let (_, same, h7) = >>=-done (require (bytes_eq name key) (entry_name_mismatch key)) _ h6 in
    let (io_raw, _, h8) = >>=-done (non_empty_text (io_path_empty key) io_v) _ h7 in
    let (_, _, h9) =
      >>=-done
        (known_keys (module_name_key ∷ resource_key ∷ module_params_key ∷ io_path_key ∷ []) mo) _
        h8 in
    subst (λ f. (is_empty f.0 ≡ false) × (f.0 ≡ key)) (ap (fields_or fields) h9)
      (
        non_empty_text-is_empty (entry_name_empty key) name_v n,
        bytes_eq→eq name key (require-done (bytes_eq name key) (entry_name_mismatch key) same),
      )
  where
    fields_or :
        Bytes × JValue × JValue × Bytes
        → Checked PlanError (Bytes × JValue × JValue × Bytes)
        → Bytes × JValue × JValue × Bytes
    fields_or f (done g) = g
    fields_or f (refused e) = f

parse_module_entry-IsEntry :
    (host : Host) (options : LaunchPlanValidationOptions) (dir key : Bytes) (node : JValue)
    (global : Dict LaunchPlanScalar) {parsed : Pair}
    → parse_module_entry host options dir key node global ≡ done parsed
    → IsEntry host options parsed.0 × ((parsed.0).module_name ≡ key)
unfolding parse_module_entry
parse_module_entry-IsEntry host options dir key node global {parsed} h =
    let (fields, f, h1) = >>=-done (entry_fields key node) _ h in
    let (raw, _, h2) = >>=-done (parse_string_map_scalars resource_key fields.1) _ h1 in
    let (resource, r, h3) =
      >>=-done (checked_resource host.doubles options.enforce_strict_resource_schema raw) _ h2 in
    let (params, _, h4) = >>=-done (parse_string_map_scalars module_params_key fields.2) _ h3 in
    let (_, reg, h5) =
      >>=-done
        (require (is_registered options.registered_module_names fields.0)
          (module_unregistered fields.0))
        _ h4 in
    let (all, _, h6) = >>=-done (record_entry_scalars host.doubles resource.0 params global) _ h5 in
    let path = host.lexically_normal (resolve_io_path dir fields.3) in
    let (channels, c, h7) = >>=-done (parse_module_io_json_file host fields.0 path) _ h6 in
    let (named, same) = entry_fields-named key node f in
    subst (λ p. IsEntry host options p.0 × ((p.0).module_name ≡ key)) (ap (pair_or parsed) h7)
      (
        record {
          named = named;
          registered =
              require-done (is_registered options.registered_module_names fields.0)
                (module_unregistered fields.0) reg;
          strict =
              checked_resource-IsStrict host.doubles options.enforce_strict_resource_schema raw r
                (record {
                  modules_dict_key = key;
                  module_name = fields.0;
                  resource = resource.0;
                  resource_schema = resource.1;
                  module_params = params;
                  io_channels_config_path_resolved = path;
                  channels = channels;
                })
                refl refl;
          io = parse_module_io_json_file-IsModuleConfig host fields.0 path c;
        },
        same,
      )

has_key-mem_bytes : (key : Bytes) (names : List Bytes) → has_key key names ≡ mem_bytes key names
has_key-mem_bytes key [] = refl
has_key-mem_bytes key (n ∷ ns) = rw (has_key-mem_bytes key ns) refl

AreEntries-cons :
    (host : Host) (options : LaunchPlanValidationOptions) (names : List Bytes) (key : Bytes)
    (entry : ParsedModuleLaunchEntry) (others : List ParsedModuleLaunchEntry)
    → IsEntry host options entry
    → entry.module_name ≡ key
    → has_key key names ≡ false
    → AreEntries host options (key ∷ names) others
    → AreEntries host options names (entry ∷ others)
AreEntries-cons host options names key entry others h same new rest = (
  h,
  ap (λ k. mem_bytes k names) same ∙ sym (has_key-mem_bytes key names) ∙ new,
  subst (λ k. AreEntries host options (k ∷ names) others) (sym same) rest,
)

-- The names are the keys of the object, and those are distinct.
pub parse_module_entries-AreEntries :
    (host : Host) (options : LaunchPlanValidationOptions) (dir : Bytes) (names : List Bytes)
    (modules : JObject) (global : Dict LaunchPlanScalar) {entries : List ParsedModuleLaunchEntry}
    → IsDistinct names modules
    → parse_module_entries host options dir modules global ≡ done entries
    → AreEntries host options names entries
unfolding parse_module_entries
parse_module_entries-AreEntries host options dir names no_members global distinct h =
    subst (AreEntries host options names) (ap (entries_or []) h) tt
  where
    entries_or :
        List ParsedModuleLaunchEntry
        → Checked PlanError (List ParsedModuleLaunchEntry)
        → List ParsedModuleLaunchEntry
    entries_or es (done fs) = fs
    entries_or es (refused e) = es
parse_module_entries-AreEntries host options dir names (member key node rest) global distinct h =
    let (parsed, f, h1) = >>=-done (parse_module_entry host options dir key node global) _ h in
    let (others, g, h2) = >>=-done (parse_module_entries host options dir rest parsed.1) _ h1 in
    let (entry, same) = parse_module_entry-IsEntry host options dir key node global f in
    subst (AreEntries host options names) (ap (entries_in []) h2) (
      AreEntries-cons host options names key parsed.0 others entry same distinct.0
        (parse_module_entries-AreEntries host options dir (key ∷ names) rest parsed.1 distinct.2 g))
  where
    entries_in :
        List ParsedModuleLaunchEntry
        → Checked PlanError (List ParsedModuleLaunchEntry)
        → List ParsedModuleLaunchEntry
    entries_in es (done fs) = fs
    entries_in es (refused e) = es
