-- ===== src/Config/LaunchPlan/Accepted.antt =====
-- What a launch plan that is accepted satisfies.
pub mod Channels
pub mod Entries
use mould_system_backend.Common.{
  ℕ, ℤ, pos, negsuc, Bool, true, false, not, ◌&&◌, ◌||◌, Bytes, bytes_eq, bytes_eq→eq, is_empty,
  Option, none, some, List, [], ◌∷◌, ◌-◌, ◌^◌, ◌≤◌, ◌<◌, leb, Checked, done, refused, ◌>>=◌,
  >>=-done, require, require-done, Bool-cases, inl, inr, ◌≡◌, refl, sym, ap, subst, ◌∙◌, arith,
  mem_bytes, Dict,
}
use mould_system_backend.Config.Json.Tree.{
  JValue, JObject, null, boolean, integral, real, text, array, no_members, member, object,
  find_object_key, Parsed, ok, failed, out_of_fuel, has_key,
}
use mould_system_backend.Config.Json.Reader.{parse_document}
use mould_system_backend.Config.Json.Within.{IsWellFormed, IsDistinct}
use mould_system_backend.Config.Json.Total.{parse_document-IsWellFormed}
use mould_system_backend.Config.Topology.{ModuleChannelConfig, ChannelTopologyIndex, TopologyError}
use mould_system_backend.Config.Topology.Build.{build_channel_topology_index}
use mould_system_backend.Config.LaunchPlan.{
  Doubles, Host, PlanError, LaunchPlanValidationOptions, ParsedModuleLaunchEntry, ParsedLaunchPlan,
  LaunchPlanScalar, modules_missing, modules_not_object, root_not_object, level_out_of_range,
  slot_count_out_of_range, payload_bytes_out_of_range, communication_not_object, plan_not_found,
}
use mould_system_backend.Config.LaunchPlan.Io.{
  parse_json_tree, json_tree, numbers_of, members_or, present, known_keys, readable,
}
use mould_system_backend.Config.LaunchPlan.Fields.{
  modules_key, minloglevel_key, communication_key, shm_slot_count_field, slot_payload_bytes_field,
}
use mould_system_backend.Config.LaunchPlan.Parse.{
  optional_int, in_range, natural, parse_minloglevel, parse_communication, parse_module_entries,
  channels_of_entries, topology_or_error, parse_launch_plan, parse_launch_plan_file,
}
use mould_system_backend.Config.LaunchPlan.Accepted.Entries.{
  AreEntries, parse_module_entries-AreEntries,
}

-- A size that is given is positive and below the limit.
abbrev pub IsSize : ℕ → Option ℕ → Type 0
IsSize limit none = Unit {0}
IsSize limit (some n) = (1 ≤ n) × (n < limit)

pub record IsLaunchPlan (host : Host) (options : LaunchPlanValidationOptions)
    (plan : ParsedLaunchPlan) : Type 0 where
  pub level : in_range 0 3 plan.minloglevel ≡ true
  pub slot_count : IsSize (2 ^ 32) plan.communication_slot_count
  pub payload_bytes : IsSize (2 ^ 63) plan.communication_slot_payload_bytes
  pub entries : AreEntries host options [] plan.modules
  pub topology :
      build_channel_topology_index (channels_of_entries plan.modules) ≡ done plan.global_topology

in_range-IsSize :
    (limit high : ℕ) (i : Option ℤ)
    → high < limit
    → in_range 1 high i ≡ true
    → IsSize limit (natural i)
in_range-IsSize limit high none h e = tt
in_range-IsSize limit high (some (pos n)) h e = (ground arith, ground arith)
in_range-IsSize limit high (some (negsuc n)) h e = tt

parse_communication-IsSize :
    (doubles : Doubles) (node : Option JValue) {sizes : Option ℕ × Option ℕ}
    → parse_communication doubles node ≡ done sizes
    → IsSize (2 ^ 32) sizes.0 × IsSize (2 ^ 63) sizes.1
unfolding parse_communication
parse_communication-IsSize doubles none {sizes} h =
    subst (λ s. IsSize (2 ^ 32) s.0 × IsSize (2 ^ 63) s.1) (ap (sizes_or sizes) h) (tt, tt)
  where
    sizes_or : Option ℕ × Option ℕ → Checked PlanError (Option ℕ × Option ℕ) → Option ℕ × Option ℕ
    sizes_or s (done t) = t
    sizes_or s (refused e) = s
parse_communication-IsSize doubles (some node) {sizes} h =
    let (o, _, h1) = >>=-done (members_or communication_not_object node) _ h in
    let (_, _, h2) =
      >>=-done (known_keys (shm_slot_count_field ∷ slot_payload_bytes_field ∷ []) o) _ h1 in
    let (count, _, h3) =
      >>=-done (optional_int doubles (find_object_key shm_slot_count_field o)) _ h2 in
    let (_, small, h4) =
      >>=-done (require (in_range 1 (2 ^ 32 - 1) count) slot_count_out_of_range) _ h3 in
    let (bytes, _, h5) =
      >>=-done (optional_int doubles (find_object_key slot_payload_bytes_field o)) _ h4 in
    let (_, fits, h6) =
      >>=-done (require (in_range 1 (2 ^ 63 - 1) bytes) payload_bytes_out_of_range) _ h5 in
    subst (λ s. IsSize (2 ^ 32) s.0 × IsSize (2 ^ 63) s.1) (ap (sizes_in sizes) h6)
      (
        in_range-IsSize (2 ^ 32) (2 ^ 32 - 1) count (omega arith)
            (require-done _ slot_count_out_of_range small),
        in_range-IsSize (2 ^ 63) (2 ^ 63 - 1) bytes (omega arith)
            (require-done _ payload_bytes_out_of_range fits),
      )
  where
    sizes_in : Option ℕ × Option ℕ → Checked PlanError (Option ℕ × Option ℕ) → Option ℕ × Option ℕ
    sizes_in s (done t) = t
    sizes_in s (refused e) = s

abbrev tree_in : JValue → Checked PlanError JValue → JValue
tree_in v (done w) = w
tree_in v (refused e) = v

parse_json_tree-IsWellFormed :
    (doubles : Doubles) (content : Bytes) {root : JValue}
    → parse_json_tree doubles content ≡ done root
    → IsWellFormed root
unfolding parse_json_tree
parse_json_tree-IsWellFormed doubles content h =
    by_outcome (parse_document (numbers_of doubles) content) refl h
  where
    by_outcome :
        (r : Parsed JValue) {root : JValue}
        → parse_document (numbers_of doubles) content ≡ r
        → json_tree r ≡ done root
        → IsWellFormed root
    by_outcome (ok v u) e g =
        subst IsWellFormed (ap (tree_in v) g)
          (parse_document-IsWellFormed (numbers_of doubles) content v u e)
    by_outcome (failed x) e g = cc
    by_outcome out_of_fuel e g = cc

find_object_key-IsWellFormed :
    (key : Bytes) (keys : List Bytes) (o : JObject) {v : JValue}
    → IsDistinct keys o
    → find_object_key key o ≡ some v
    → IsWellFormed v
unfolding find_object_key
find_object_key-IsWellFormed key keys no_members distinct h = cc
find_object_key-IsWellFormed key keys (member k w rest) distinct h =
    elim (Bool-cases (bytes_eq k key)) [
      | inl e ↦ subst IsWellFormed (ap (value_in w) (rw (find_object_key, e) at h)) distinct.1
      | inr e ↦
          find_object_key-IsWellFormed key (k ∷ keys) rest distinct.2 (rw (find_object_key, e) at h)
    ]
  where
    value_in : JValue → Option JValue → JValue
    value_in w none = w
    value_in w (some v) = v

members_or-done :
    (e : PlanError) (v : JValue) {o : JObject} → members_or e v ≡ done o → v ≡ object o
members_or-done e null h = cc
members_or-done e (boolean b) h = cc
members_or-done e (integral i) h = cc
members_or-done e (real t) h = cc
members_or-done e (text t) h = cc
members_or-done e (object o) h = cc
members_or-done e (array a) h = cc

present-done : (e : PlanError) (v : Option JValue) {w : JValue} → present e v ≡ done w → v ≡ some w
present-done e none h = cc
present-done e (some v) h = cc

topology_or_error-done :
    (r : Checked TopologyError ChannelTopologyIndex) {t : ChannelTopologyIndex}
    → topology_or_error r ≡ done t
    → r ≡ done t
topology_or_error-done (done u) h = ap (λ x. done x) (ap index_in h)
  where
    index_in : Checked PlanError ChannelTopologyIndex → ChannelTopologyIndex
    index_in (done t) = t
    index_in (refused e) = u
topology_or_error-done (refused e) h = cc

parse_minloglevel-in_range :
    (doubles : Doubles) (node : Option JValue) {level : Option ℤ}
    → parse_minloglevel doubles node ≡ done level
    → in_range 0 3 level ≡ true
unfolding parse_minloglevel
parse_minloglevel-in_range doubles node {level} h =
    let (i, _, h1) = >>=-done (optional_int doubles node) _ h in
    let (_, r, h2) = >>=-done (require (in_range 0 3 i) level_out_of_range) _ h1 in
    subst (λ l. in_range 0 3 l ≡ true) (ap (level_or level) h2)
      (require-done (in_range 0 3 i) level_out_of_range r)
  where
    level_or : Option ℤ → Checked PlanError (Option ℤ) → Option ℤ
    level_or l (done m) = m
    level_or l (refused e) = l

-- A plan of a tree whose objects have no key twice.
parse_launch_plan-IsLaunchPlan :
    (host : Host) (options : LaunchPlanValidationOptions) (path : Bytes) (root : JValue)
    {plan : ParsedLaunchPlan}
    → IsWellFormed root
    → parse_launch_plan host options path root ≡ done plan
    → IsLaunchPlan host options plan
unfolding parse_launch_plan
parse_launch_plan-IsLaunchPlan host options path root {plan} well h =
    let (o, f, h1) = >>=-done (members_or root_not_object root) _ h in
    let (modules_node, g, h2) =
      >>=-done (present modules_missing (find_object_key modules_key o)) _ h1 in
    let (modules, k, h3) = >>=-done (members_or modules_not_object modules_node) _ h2 in
    let (level, l, h4) =
      >>=-done (parse_minloglevel host.doubles (find_object_key minloglevel_key o)) _ h3 in
    let (sizes, c, h5) =
      >>=-done (parse_communication host.doubles (find_object_key communication_key o)) _ h4 in
    let (_, _, h6) =
      >>=-done (known_keys (modules_key ∷ minloglevel_key ∷ communication_key ∷ []) o) _ h5 in
    let (entries, m, h7) =
      >>=-done (parse_module_entries host options (host.parent_path path) modules []) _ h6 in
    let (topology, t, h8) =
      >>=-done (topology_or_error (build_channel_topology_index (channels_of_entries entries))) _
        h7 in
    let named : IsWellFormed modules_node =
      find_object_key-IsWellFormed modules_key [] o
        (subst IsWellFormed (members_or-done root_not_object root f) well)
        (present-done modules_missing (find_object_key modules_key o) g) in
    subst (IsLaunchPlan host options) (ap (plan_or plan) h8) (record {
      level = parse_minloglevel-in_range host.doubles (find_object_key minloglevel_key o) l;
      slot_count =
          (parse_communication-IsSize host.doubles (find_object_key communication_key o) c).0;
      payload_bytes =
          (parse_communication-IsSize host.doubles (find_object_key communication_key o) c).1;
      entries =
          parse_module_entries-AreEntries host options (host.parent_path path) [] modules []
            (subst IsWellFormed (members_or-done modules_not_object modules_node k) named) m;
      topology =
          topology_or_error-done (build_channel_topology_index (channels_of_entries entries)) t;
    })
  where
    plan_or : ParsedLaunchPlan → Checked PlanError ParsedLaunchPlan → ParsedLaunchPlan
    plan_or p (done q) = q
    plan_or p (refused e) = p

-- A launch plan that is accepted has a log level from 0 to 3, positive sizes in range, and modules
-- with non-empty, pairwise distinct names, whose channels are well formed; when the options give the
-- registered names, each name is one of these, and under the strict schema the resources are in normal
-- form. Its topology is the one of those channels.
pub parse_launch_plan_file-IsLaunchPlan :
    (host : Host) (options : LaunchPlanValidationOptions) (path : Bytes) (plan : ParsedLaunchPlan)
    → parse_launch_plan_file host options path ≡ done plan
    → IsLaunchPlan host options plan
unfolding parse_launch_plan_file
parse_launch_plan_file-IsLaunchPlan host options path plan h =
    let (content, _, h1) = >>=-done (readable plan_not_found (host.files path)) _ h in
    let (root, tree, h2) = >>=-done (parse_json_tree host.doubles content) _ h1 in
    parse_launch_plan-IsLaunchPlan host options path root
      (parse_json_tree-IsWellFormed host.doubles content tree) h2
