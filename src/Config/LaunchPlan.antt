-- ===== src/Config/LaunchPlan.antt =====
-- common/config/src/launch_plan_config.cpp: the launch plan, its scalars, and each module's entry.
pub mod Scalars
pub mod CpuSet
pub mod Resource
pub mod Io
pub mod Fields
pub mod Parse
pub mod Accepted
pub mod Environment
mod Tests
use mould_system_backend.Common.{ℕ, ℤ, Bool, Bytes, Option, List, Dict}
use mould_system_backend.Config.Json.Tree.{JsonError}
use mould_system_backend.Config.Topology.{TopologyError, ModuleChannelConfig, ChannelTopologyIndex}

-- A number with a fraction or an exponent is its text, as in the JSON tree.
pub data LaunchPlanScalar : Type 0 where
  text_scalar : Bytes → LaunchPlanScalar
  int_scalar : ℤ → LaunchPlanScalar
  real_scalar : Bytes → LaunchPlanScalar
  bool_scalar : Bool → LaunchPlanScalar

pub record ResourceSchema : Type 0 where
  pub startup_priority : ℤ
  pub cpu_set : Bytes
  pub restart_backoff_ms : ℤ
  pub restart_max_retries : ℤ
  pub restart_window_ms : ℤ
  pub restart_fuse_ms : ℤ
  pub ready_timeout_ms : ℤ

-- What the code uses of double precision: which texts `std::stod` converts, how a stream prints what it
-- gives, its value where that is a whole number of 64 bits, and the comparison of two scalars of which
-- at least one is a real.
pub record Doubles : Type 0 where
  pub stod_converts : Bytes → Bool
  pub print_real : Bytes → Bytes
  pub to_int64 : Bytes → Option ℤ
  pub nearly_equal : LaunchPlanScalar → LaunchPlanScalar → Bool

-- The texts of the errors.
pub data PlanError : Type 0 where
  null_scalar not_scalar not_integer empty_integer_text not_integer_text empty_cpu_token
        cpu_out_of_range no_cpu cpu_set_missing cpu_set_not_text :
      PlanError
  invalid_cpu_token : Bytes → PlanError
  duplicate_cpu : ℤ → PlanError
  field_missing : Bytes → PlanError
  plan_not_found modules_missing modules_not_object root_not_object level_out_of_range
        communication_not_object slot_count_out_of_range payload_bytes_out_of_range unfinished :
      PlanError
  invalid_json : JsonError → PlanError
  unknown_key entry_not_object entry_field_missing entry_name_empty entry_name_mismatch
        io_path_empty scalars_not_object integer_required module_unregistered scalar_conflict :
      Bytes → PlanError
  io_file_not_found io_root_not_object input_missing output_missing side_not_object
        channel_name_invalid channel_params_not_object parameter_repeated output_repeated :
      Bytes → PlanError
  topology_error : TopologyError → PlanError

pub record LaunchPlanValidationOptions : Type 0 where
  pub enforce_strict_resource_schema : Bool
  pub registered_module_names : Option (List Bytes)

pub record ParsedModuleLaunchEntry : Type 0 where
  pub modules_dict_key : Bytes
  pub module_name : Bytes
  pub resource : Dict LaunchPlanScalar
  pub resource_schema : ResourceSchema
  pub module_params : Dict LaunchPlanScalar
  pub io_channels_config_path_resolved : Bytes
  pub channels : ModuleChannelConfig

pub record ParsedLaunchPlan : Type 0 where
  pub launch_plan_path : Bytes
  pub minloglevel : Option ℤ
  pub communication_slot_count : Option ℕ
  pub communication_slot_payload_bytes : Option ℕ
  pub modules : List ParsedModuleLaunchEntry
  pub global_topology : ChannelTopologyIndex

-- What the reader of a plan uses of its host: the files, double precision, and the algebra of paths.
pub record Host : Type 0 where
  pub files : Bytes → Option Bytes
  pub doubles : Doubles
  pub parent_path : Bytes → Bytes
  pub lexically_normal : Bytes → Bytes
