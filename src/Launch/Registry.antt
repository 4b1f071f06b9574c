-- ===== src/Launch/Registry.antt =====
-- The registry of module factories. A lock makes each call one step; the factories are arguments.
use mould_system_backend.Common.{
  Bool, true, false, not, Bytes, bytes_eq, is_empty, Option, none, some, List, [], ◌∷◌, Dict, find,
  assign, mem_bytes, Checked, done, refused, ◌>>=◌, require, ◌≡◌, refl, arith, Bool-cases, inl, inr,
}
use mould_system_backend.Config.LaunchPlan.{Host, ParsedModuleLaunchEntry, ParsedLaunchPlan}
use mould_system_backend.Config.LaunchPlan.Parse.{parse_launch_plan_file}
use mould_system_backend.Config.LaunchPlan.Accepted.{parse_launch_plan_file-IsLaunchPlan}
use mould_system_backend.Config.LaunchPlan.Accepted.Entries.{AreEntries}

pub data RegistryError : Type 0 where
  empty_module_name : RegistryError
  empty_factory duplicate_module_name not_registered null_instance : Bytes → RegistryError

-- `std::function`: a configuration is taken to an instance, which may be null.
abbrev pub FactoryFn : Type 0 → Type 0 → Type 0
FactoryFn C M = C → Option M

abbrev pub Registry : Type 0 → Type 0 → Type 0
Registry C M = Dict (FactoryFn C M)

abbrev pub instance_of : {M : Type 0} → Bytes → Option M → Checked RegistryError M
instance_of name none = refused (null_instance name)
instance_of name (some m) = done m

module _ {C M : Type 0} where
  abbrev pub is_unknown : Option (FactoryFn C M) → Bool
  is_unknown none = true
  is_unknown (some f) = false

  unfoldable pub register_module :
      Bytes → Option (FactoryFn C M) → Registry C M → Checked RegistryError (Registry C M)
  register_module name none factories =
      require (not (is_empty name)) empty_module_name >>= λ _. refused (empty_factory name)
  register_module name (some factory) factories =
      require (not (is_empty name)) empty_module_name >>= λ _.
      require (is_unknown (find name factories)) (duplicate_module_name name) >>= λ _.
      done (assign name factory factories)

  abbrev pub create_with : Bytes → C → Option (FactoryFn C M) → Checked RegistryError M
  create_with name config none = refused (not_registered name)
  create_with name config (some factory) = instance_of name (factory config)

  unfoldable pub create_module : Bytes → C → Registry C M → Checked RegistryError M
  create_module name config factories = create_with name config (find name factories)

  unfoldable pub registered_names : Registry C M → List Bytes
  registered_names [] = []
  registered_names ((name, factory) ∷ rest) = name ∷ registered_names rest

  registered-found :
      (name : Bytes) (factories : Registry C M)
      → mem_bytes name (registered_names factories) ≡ true
      → (factory : FactoryFn C M) × (find name factories ≡ some factory)
  unfolding registered_names find
  registered-found name [] h = cc
  registered-found name ((n, f) ∷ rest) h = elim (Bool-cases (bytes_eq n name)) [
    | inl e ↦ (f, rw (find, e) refl)
    | inr e ↦
        let (factory, g) = registered-found name rest (ground arith) in (factory, rw (find, e) g)
  ]

  -- A module that an entry names has a factory that makes it.
  abbrev pub AllCreate : Registry C M → C → List ParsedModuleLaunchEntry → Type 0
  AllCreate factories config [] = Unit {0}
  AllCreate factories config (e ∷ es) =
      ((factory : FactoryFn C M) × (find e.module_name factories ≡ some factory)
        × (create_module e.module_name config factories
            ≡ instance_of e.module_name (factory config)))
      × AllCreate factories config es

  entries-AllCreate :
      (factories : Registry C M) (config : C) (host : Host) (strict : Bool) (names : List Bytes)
      (entries : List ParsedModuleLaunchEntry)
      → AreEntries host
          (record {
            enforce_strict_resource_schema = strict;
            registered_module_names = some (registered_names factories);
          })
          names
          entries
      → AllCreate factories config entries
  unfolding create_module
  entries-AllCreate factories config host strict names [] h = tt
  entries-AllCreate factories config host strict names (e ∷ es) h =
      let (factory, found) = registered-found e.module_name factories h.0.registered in
      (
        (factory, found, rw found refl),
        entries-AllCreate factories config host strict (e.module_name ∷ names) es h.2,
      )

  -- When a launch plan is checked against the registered names, as the master does, every module of an
  -- accepted plan has a factory, and creating it gives what this factory makes.
  pub accepted_plan-AllCreate :
      (factories : Registry C M) (config : C) (host : Host) (strict : Bool) (path : Bytes)
      (plan : ParsedLaunchPlan)
      → parse_launch_plan_file host
          (record {
            enforce_strict_resource_schema = strict;
            registered_module_names = some (registered_names factories);
          })
          path
        ≡ done plan
      → AllCreate factories config plan.modules
  accepted_plan-AllCreate factories config host strict path plan h =
      entries-AllCreate factories config host strict [] plan.modules
        (parse_launch_plan_file-IsLaunchPlan host _ path plan h).entries
