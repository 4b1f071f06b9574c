-- ===== src/Config/LaunchPlan/Environment/Supervised.antt =====
-- The modules that services/backend/main.cpp hands to the supervisor.
use mould_system_backend.Common.{
  true, false, Bytes, bytes_eq, bytes_eq_refl, is_empty, none, List, [], ◌∷◌, map, mem_bytes, done,
  String, str_eq, eq_iff, ◌≡◌, refl, ap, arith, Bool-cases, inl, inr, Dict, emplace,
}
use mould_system_backend.Supervisor.{SupervisorModuleSpec}
use mould_system_backend.Supervisor.Startup.{
  seen, AllDistinct, validate_single_module_per_process_invariant, validate-AllDistinct,
}
use mould_system_backend.Config.LaunchPlan.{
  Host, LaunchPlanValidationOptions, ParsedModuleLaunchEntry, ParsedLaunchPlan,
}
use mould_system_backend.Config.LaunchPlan.Parse.{parse_launch_plan_file}
use mould_system_backend.Config.LaunchPlan.Accepted.{parse_launch_plan_file-IsLaunchPlan}
use mould_system_backend.Config.LaunchPlan.Accepted.Entries.{AreEntries}

-- A name of bytes as the text that the supervisor is modelled with.
abbrev pub spec_of : (Bytes → String) → ParsedModuleLaunchEntry → SupervisorModuleSpec
spec_of name_text entry = record {
  module_name = name_text entry.module_name;
  startup_priority = (entry.resource_schema).startup_priority;
}

unfoldable pub supervisor_specs :
    (Bytes → String) → List ParsedModuleLaunchEntry → List SupervisorModuleSpec
supervisor_specs name_text [] = []
supervisor_specs name_text (e ∷ es) = spec_of name_text e ∷ supervisor_specs name_text es

unfoldable pub module_entries :
    List ParsedModuleLaunchEntry → Dict ParsedModuleLaunchEntry → Dict ParsedModuleLaunchEntry
module_entries [] entries = entries
module_entries (e ∷ es) entries = module_entries es (emplace e.module_name e entries)

abbrev pub names_of : List ParsedModuleLaunchEntry → List Bytes
names_of [] = []
names_of (e ∷ es) = e.module_name ∷ names_of es

-- On these names the texts are as different as the names, and only the empty name has the empty text.
pub record IsNaming (name_text : Bytes → String) (names : List Bytes) : Type 0 where
  pub apart :
      (a b : Bytes)
      → mem_bytes a names ≡ true
      → mem_bytes b names ≡ true
      → name_text a ≡ name_text b
      → a ≡ b
  pub not_empty : (a : Bytes) → mem_bytes a names ≡ true → name_text a ≡ "" → a ≡ []

abbrev Includes : List Bytes → List Bytes → Type 0
Includes all [] = Unit {0}
Includes all (n ∷ ns) = (mem_bytes n all ≡ true) × Includes all ns

module _ (name_text : Bytes → String) (all : List Bytes) (naming : IsNaming name_text all) where
  seen-map :
      (name : Bytes) (names : List Bytes)
      → mem_bytes name all ≡ true
      → Includes all names
      → mem_bytes name names ≡ false
      → seen (name_text name) (map name_text names) ≡ false
  seen-map name [] here inside h = refl
  seen-map name (n ∷ ns) here inside h = elim (Bool-cases (str_eq (name_text n) (name_text name))) [
    | inl e ↦
        let same =
          naming.apart n name inside.0 here ((eq_iff (name_text n) (name_text name)).0 e) in
        ground (arith, bytes_eq_refl name, ap (λ m. bytes_eq m name) same)
    | inr e ↦ let rest = seen-map name ns here inside.1 (ground arith) in rw (e, rest) refl
  ]

  supervisor_specs-AllDistinct :
      (host : Host) (options : LaunchPlanValidationOptions) (names : List Bytes)
      (entries : List ParsedModuleLaunchEntry)
      → Includes all names
      → Includes all (names_of entries)
      → AreEntries host options names entries
      → AllDistinct (map name_text names) (supervisor_specs name_text entries)
  unfolding supervisor_specs
  supervisor_specs-AllDistinct host options names [] before inside h = tt
  supervisor_specs-AllDistinct host options names (e ∷ es) before inside h = (
    λ none_left. cc (ap is_empty (naming.not_empty e.module_name inside.0 none_left), h.0.named),
    seen-map e.module_name names inside.0 before h.1,
    supervisor_specs-AllDistinct host options (e.module_name ∷ names) es (inside.0, before) inside.1
        h.2,
  )

Includes-longer :
    (all : List Bytes) (n : Bytes) (names : List Bytes)
    → Includes all names
    → Includes (n ∷ all) names
Includes-longer all n [] h = tt
Includes-longer all n (m ∷ ms) h = (ground arith, Includes-longer all n ms h.1)

Includes-refl : (names : List Bytes) → Includes names names
Includes-refl [] = tt
Includes-refl (n ∷ ns) =
    (ground (arith, bytes_eq_refl n), Includes-longer ns n ns (Includes-refl ns))

-- The supervisor accepts the modules of every launch plan that is accepted: when the names of the
-- plan's modules are taken to different texts, and none but an empty one to the empty text, its check
-- of the specs finds no error.
pub accepted_plan_is_supervised :
    (name_text : Bytes → String) (host : Host) (options : LaunchPlanValidationOptions)
    (path : Bytes) (plan : ParsedLaunchPlan)
    → IsNaming name_text (names_of plan.modules)
    → parse_launch_plan_file host options path ≡ done plan
    → validate_single_module_per_process_invariant (supervisor_specs name_text plan.modules) ≡ none
accepted_plan_is_supervised name_text host options path plan naming h =
    (validate-AllDistinct (supervisor_specs name_text plan.modules)).1 (
      supervisor_specs-AllDistinct name_text (names_of plan.modules) naming host options []
        plan.modules tt (Includes-refl (names_of plan.modules))
        (parse_launch_plan_file-IsLaunchPlan host options path plan h).entries)
