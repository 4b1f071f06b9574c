-- ===== src/Config/LaunchPlan/Environment.antt =====
-- What the master does with an accepted plan: flags, the environment, and the modules to supervise.
pub mod Supervised
use mould_system_backend.Common.{
  ℕ, ℤ, pos, Bool, true, false, not, ◌&&◌, ◌||◌, Bytes, is_empty, Option, none, some, List, [], ◌∷◌,
  ◌++◌, if◌then◌else◌, Dict, Checked, done, refused, ◌>>=◌, require,
}
use mould_system_backend.Config.Decimal.{to_string}
use mould_system_backend.Config.LaunchPlan.{
  LaunchPlanScalar, Doubles, ParsedModuleLaunchEntry, ParsedLaunchPlan,
}
use mould_system_backend.Config.LaunchPlan.Scalars.{scalar_to_assignment_string}
use mould_system_backend.Config.LaunchPlan.Fields.{is_per_module_resource_schema_key}

-- The library gflags: whether a flag is registered, and whether it takes a value in place of those it
-- took before.
pub record Gflags : Type 0 where
  pub registered : Bytes → Bool
  pub takes : Bytes → Bytes → Bool

pub data GflagError : Type 0 where
  not_registered : Bytes → Bytes → GflagError
  not_taken : Bytes → Bytes → GflagError

abbrev pub Assignments : Type 0
Assignments = List (Bytes × Bytes)

-- The calls that set flags, in their order.
unfoldable pub assign_all :
    Doubles → Gflags → Bytes → Dict LaunchPlanScalar → Assignments → Checked GflagError Assignments
unfolding scalar_to_assignment_string
assign_all doubles flags name [] calls = done calls
assign_all doubles flags name ((k, v) ∷ rest) calls =
    require (flags.registered k) (not_registered name k) >>= λ _.
    assign_all doubles flags name rest (calls ++ (k, scalar_to_assignment_string doubles v) ∷ [])

unfoldable pub apply_launch_plan_scalars_to_registered_gflags :
    Doubles → Gflags → List ParsedModuleLaunchEntry → Assignments → Checked GflagError Assignments
unfolding assign_all
apply_launch_plan_scalars_to_registered_gflags doubles flags [] calls = done calls
apply_launch_plan_scalars_to_registered_gflags doubles flags (mod_entry ∷ rest) calls =
    assign_all doubles flags mod_entry.module_name mod_entry.resource calls
    >>= assign_all doubles flags mod_entry.module_name mod_entry.module_params
    >>= apply_launch_plan_scalars_to_registered_gflags doubles flags rest

pub data LaunchPlanGflagMatchPolicy : Type 0 where
  skip_unknown_keys fail_on_unknown_keys : LaunchPlanGflagMatchPolicy

abbrev pub fails_on_unknown : LaunchPlanGflagMatchPolicy → Bool
fails_on_unknown skip_unknown_keys = false
fails_on_unknown fail_on_unknown_keys = true

-- One key, unless it is skipped.
unfoldable pub apply_one :
    Doubles
    → Gflags
    → LaunchPlanGflagMatchPolicy
    → Bytes
    → Bytes
    → LaunchPlanScalar
    → Assignments
    → Checked GflagError Assignments
unfolding scalar_to_assignment_string
apply_one doubles flags policy name key value calls =
    let text = scalar_to_assignment_string doubles value in
    elim (flags.registered key) [
      | false ↦
          require (not (fails_on_unknown policy)) (not_registered name key) >>= λ _. done calls
      | true ↦ require (flags.takes key text) (not_taken name key) >>= λ _.
          done (calls ++ (key, text) ∷ [])
    ]

unfoldable pub apply_matching :
    Doubles
    → Gflags
    → LaunchPlanGflagMatchPolicy
    → (Bytes → Bool)
    → Bytes
    → Dict LaunchPlanScalar
    → Assignments
    → Checked GflagError Assignments
unfolding apply_one
apply_matching doubles flags policy skipped name [] calls = done calls
apply_matching doubles flags policy skipped name ((k, v) ∷ rest) calls =
    (if skipped k then done calls else apply_one doubles flags policy name k v calls)
    >>= apply_matching doubles flags policy skipped name rest

unfoldable pub apply_launch_plan_scalars_to_matching_registered_gflags :
    Doubles
    → Gflags
    → LaunchPlanGflagMatchPolicy
    → List ParsedModuleLaunchEntry
    → Assignments
    → Checked GflagError Assignments
unfolding apply_matching is_per_module_resource_schema_key
apply_launch_plan_scalars_to_matching_registered_gflags doubles flags policy [] calls = done calls
apply_launch_plan_scalars_to_matching_registered_gflags doubles flags policy (mod_entry ∷ rest)
      calls =
    apply_matching doubles flags policy is_per_module_resource_schema_key mod_entry.module_name
      mod_entry.resource calls
    >>= apply_matching doubles flags policy (λ _. false) mod_entry.module_name
        mod_entry.module_params
    >>= apply_launch_plan_scalars_to_matching_registered_gflags doubles flags policy rest

pub data EnvironmentError : Type 0 where
  empty_io_path : Bytes → EnvironmentError
  no_module_configs : EnvironmentError
  setenv_failed : Bytes → EnvironmentError

-- "name=path" of each module, with `;` between them, behind the text so far.
unfoldable pub module_configs :
    Dict ParsedModuleLaunchEntry
    → Bytes
    → Assignments
    → Checked EnvironmentError (Bytes × Assignments)
module_configs [] configs pairs = done (configs, pairs)
module_configs ((name, entry) ∷ rest) configs pairs =
    let path = entry.io_channels_config_path_resolved in
    require (not (is_empty path)) (empty_io_path name) >>= λ _.
    module_configs rest (configs ++ separated pairs ++ name ++ b'=' ∷ path)
      (pairs ++ (name, path) ∷ [])
  where
    separated : Assignments → Bytes
    separated [] = []
    separated (p ∷ ps) = b';' ∷ []

abbrev pub value_or : ℕ → Option ℕ → ℕ
value_or default none = default
value_or default (some n) = n

abbrev pub module_channel_configs_name : Bytes
module_channel_configs_name =
    b'M' ∷ b'O' ∷ b'U' ∷ b'L' ∷ b'D' ∷ b'_' ∷ b'M' ∷ b'O' ∷ b'D' ∷ b'U' ∷ b'L' ∷ b'E' ∷ b'_' ∷ b'C'
    ∷ b'H' ∷ b'A' ∷ b'N' ∷ b'N' ∷ b'E' ∷ b'L' ∷ b'_' ∷ b'C' ∷ b'O' ∷ b'N' ∷ b'F' ∷ b'I' ∷ b'G'
    ∷ b'S' ∷ []

abbrev pub fork_inheritance_token_name : Bytes
fork_inheritance_token_name =
    b'M' ∷ b'O' ∷ b'U' ∷ b'L' ∷ b'D' ∷ b'_' ∷ b'F' ∷ b'O' ∷ b'R' ∷ b'K' ∷ b'_' ∷ b'I' ∷ b'N' ∷ b'H'
    ∷ b'E' ∷ b'R' ∷ b'I' ∷ b'T' ∷ b'A' ∷ b'N' ∷ b'C' ∷ b'E' ∷ b'_' ∷ b'T' ∷ b'O' ∷ b'K' ∷ b'E'
    ∷ b'N' ∷ []

abbrev pub fork_inheritance_token : Bytes
fork_inheritance_token =
    b'b' ∷ b'a' ∷ b'c' ∷ b'k' ∷ b'e' ∷ b'n' ∷ b'd' ∷ b'_' ∷ b'm' ∷ b'a' ∷ b'i' ∷ b'n' ∷ b'_' ∷ b'f'
    ∷ b'o' ∷ b'r' ∷ b'k' ∷ b'_' ∷ b'm' ∷ b'o' ∷ b'd' ∷ b'e' ∷ b'l' ∷ []

abbrev pub shm_slot_count_name : Bytes
shm_slot_count_name =
    b'M' ∷ b'O' ∷ b'U' ∷ b'L' ∷ b'D' ∷ b'_' ∷ b'S' ∷ b'H' ∷ b'M' ∷ b'_' ∷ b'S' ∷ b'L' ∷ b'O' ∷ b'T'
    ∷ b'_' ∷ b'C' ∷ b'O' ∷ b'U' ∷ b'N' ∷ b'T' ∷ []

abbrev pub shm_slot_payload_bytes_name : Bytes
shm_slot_payload_bytes_name =
    b'M' ∷ b'O' ∷ b'U' ∷ b'L' ∷ b'D' ∷ b'_' ∷ b'S' ∷ b'H' ∷ b'M' ∷ b'_' ∷ b'S' ∷ b'L' ∷ b'O' ∷ b'T'
    ∷ b'_' ∷ b'P' ∷ b'A' ∷ b'Y' ∷ b'L' ∷ b'O' ∷ b'A' ∷ b'D' ∷ b'_' ∷ b'B' ∷ b'Y' ∷ b'T' ∷ b'E'
    ∷ b'S' ∷ []

-- `setenv`, which may fail.
abbrev pub set_variable :
    (Bytes → Bool) → Bytes → Bytes → Assignments → Checked EnvironmentError Assignments
set_variable setenv_works name value environment =
    require (setenv_works name) (setenv_failed name) >>= λ _.
    done (environment ++ (name, value) ∷ [])

-- The pairs of modules and paths, and the variables that are set, in their order.
unfoldable pub setup_runtime_environment_from_launch_plan :
    (Bytes → Bool)
    → Dict ParsedModuleLaunchEntry
    → ParsedLaunchPlan
    → Checked EnvironmentError (Assignments × Assignments)
unfolding module_configs to_string
setup_runtime_environment_from_launch_plan setenv_works module_entries launch_plan =
    module_configs module_entries [] [] >>= λ result.
    require (not (is_empty result.0)) no_module_configs >>= λ _.
    set_variable setenv_works module_channel_configs_name result.0 []
    >>= set_variable setenv_works fork_inheritance_token_name fork_inheritance_token
    >>= set_variable setenv_works shm_slot_count_name
        (to_string (pos (value_or 256 launch_plan.communication_slot_count)))
    >>= set_variable setenv_works shm_slot_payload_bytes_name
        (to_string (pos (value_or 1024 launch_plan.communication_slot_payload_bytes)))
    >>= λ environment. done (result.1, environment)

-- `argv[1]`, if it is there.
unfoldable pub resolve_launch_plan_path : List Bytes → Bytes
resolve_launch_plan_path (program ∷ path ∷ rest) = path
resolve_launch_plan_path _ = []
