-- ===== src/Supervisor/Startup.antt =====
-- Which modules may be started, and in which batches.
use mathlib.Core.List.{flatten}
use mould_system_backend.Common.{
  ℕ, suc, ℤ, ltb_ℤ, Bool, true, false, Option, none, some, List, [], ◌∷◌, ◌++◌, ◌+◌, ◌≡◌, ◌≢◌, ◌↔◌,
  refl, ap, subst, arith, String, eq_iff, str_eq, ◌&&◌, ◌||◌, not, if◌then◌else◌, map,
}
use mould_system_backend.Supervisor.{Supervisor, SupervisorModuleSpec}

pub data SpecError : Type 0 where
  empty_module_name : SpecError
  duplicate_module : String → SpecError

abbrev pub seen : String → List String → Bool
seen name [] = false
seen name (n ∷ ns) = str_eq n name || seen name ns

-- The loop of the check, with the names seen so far; `none` is acceptance.
unfoldable pub validate_from : List String → List SupervisorModuleSpec → Option SpecError
validate_from names [] = none
validate_from names (spec ∷ specs) =
    let rest = validate_from (spec.module_name ∷ names) specs in
    if str_eq spec.module_name ""
    then some empty_module_name
    else if seen spec.module_name names
    then some (duplicate_module spec.module_name)
    else rest

unfoldable pub validate_single_module_per_process_invariant :
    List SupervisorModuleSpec → Option SpecError
validate_single_module_per_process_invariant modules = validate_from [] modules

-- Every module has a name, which none of the listed names and no other module has.
abbrev pub AllDistinct : List String → List SupervisorModuleSpec → Type 0
AllDistinct names [] = Unit {0}
AllDistinct names (spec ∷ specs) =
    (spec.module_name ≢ "")
    × (seen spec.module_name names ≡ false)
    × AllDistinct (spec.module_name ∷ names) specs

validate_from-AllDistinct :
    (names : List String) (specs : List SupervisorModuleSpec)
    → (validate_from names specs ≡ none) ↔ AllDistinct names specs
unfolding validate_from
validate_from-AllDistinct names [] = (λ e. tt, λ d. refl)
validate_from-AllDistinct names (spec ∷ specs) =
    let ih = validate_from-AllDistinct (spec.module_name ∷ names) specs in
    (
      λ e. ground (arith, eq_iff spec.module_name "", ih),
      λ d. ground (arith, eq_iff spec.module_name "", ih),
    )

pub validate-AllDistinct :
    (modules : List SupervisorModuleSpec)
    → (validate_single_module_per_process_invariant modules ≡ none) ↔ AllDistinct [] modules
unfolding validate_single_module_per_process_invariant
validate-AllDistinct modules = validate_from-AllDistinct [] modules

-- Every module of the list, wherever it stands, has a name.
abbrev pub AllNamed : List SupervisorModuleSpec → Type 0
AllNamed modules =
    (xs : List SupervisorModuleSpec) (a : SupervisorModuleSpec) (ys : List SupervisorModuleSpec)
    → modules ≡ xs ++ a ∷ ys
    → a.module_name ≢ ""

-- No two modules, at whichever two places, have the same name.
abbrev pub NoneTwice : List SupervisorModuleSpec → Type 0
NoneTwice modules =
    (xs : List SupervisorModuleSpec) (a : SupervisorModuleSpec) (ys : List SupervisorModuleSpec)
    (b : SupervisorModuleSpec) (zs : List SupervisorModuleSpec)
    → modules ≡ xs ++ a ∷ ys ++ b ∷ zs
    → a.module_name ≢ b.module_name

named_at :
    (names : List String) (xs : List SupervisorModuleSpec) (a : SupervisorModuleSpec)
    (ys : List SupervisorModuleSpec)
    → AllDistinct names (xs ++ a ∷ ys)
    → a.module_name ≢ ""
named_at names [] a ys d = d.0
named_at names (x ∷ xs) a ys d = named_at (x.module_name ∷ names) xs a ys d.2

new_at :
    (name : String) (names : List String) (ys : List SupervisorModuleSpec)
    (b : SupervisorModuleSpec) (zs : List SupervisorModuleSpec)
    → seen name names ≡ true
    → AllDistinct names (ys ++ b ∷ zs)
    → name ≢ b.module_name
new_at name names [] b zs here d = λ e. absurd (cc (here, d.1, ap (λ (n : String). seen n names) e))
new_at name names (y ∷ ys) b zs here d =
    new_at name (y.module_name ∷ names) ys b zs (rw here (ground arith)) d.2

different_at :
    (names : List String) (xs : List SupervisorModuleSpec) (a : SupervisorModuleSpec)
    (ys : List SupervisorModuleSpec) (b : SupervisorModuleSpec) (zs : List SupervisorModuleSpec)
    → AllDistinct names (xs ++ a ∷ ys ++ b ∷ zs)
    → a.module_name ≢ b.module_name
different_at names [] a ys b zs d =
    let self : str_eq a.module_name a.module_name ≡ true =
      (eq_iff a.module_name a.module_name).1 refl in
    new_at a.module_name (a.module_name ∷ names) ys b zs (rw self refl) d.2
different_at names (x ∷ xs) a ys b zs d = different_at (x.module_name ∷ names) xs a ys b zs d.2

AllDistinct-places :
    (names : List String) (specs : List SupervisorModuleSpec)
    → AllNamed specs
    → NoneTwice specs
    → ((xs : List SupervisorModuleSpec) (a : SupervisorModuleSpec) (ys : List SupervisorModuleSpec)
        → specs ≡ xs ++ a ∷ ys
        → seen a.module_name names ≡ false)
    → AllDistinct names specs
AllDistinct-places names [] named twice fresh = tt
AllDistinct-places names (spec ∷ specs) named twice fresh = (
  named [] spec specs refl,
  fresh [] spec specs refl,
  AllDistinct-places (spec.module_name ∷ names) specs
      (λ xs a ys e. named (spec ∷ xs) a ys (ap (◌∷◌ spec) e))
      (λ xs a ys b zs e. twice (spec ∷ xs) a ys b zs (ap (◌∷◌ spec) e))
      (λ xs a ys e.
        let apart = twice [] spec xs a ys (ap (◌∷◌ spec) e) in
        let other = fresh (spec ∷ xs) a ys (ap (◌∷◌ spec) e) in
        ground (arith, apart, other, eq_iff spec.module_name a.module_name)),
)

-- The check accepts a launch plan exactly when every module, wherever it stands, has a name, and no
-- two modules, at whichever two places, have the same.
pub validate_iff :
    (modules : List SupervisorModuleSpec)
    → (validate_single_module_per_process_invariant modules ≡ none)
      ↔ (AllNamed modules × NoneTwice modules)
validate_iff modules = (
  λ e.
      let d = (validate-AllDistinct modules).0 e in
      (
        λ xs a ys f. named_at [] xs a ys (subst (AllDistinct []) f d),
        λ xs a ys b zs f. different_at [] xs a ys b zs (subst (AllDistinct []) f d),
      ),
  λ d. (validate-AllDistinct modules).1 (AllDistinct-places [] modules d.0 d.1 (λ xs a ys f. refl)),
)

abbrev pub same_priority : ℤ → ℤ → Bool
same_priority a b = not (ltb_ℤ a b) && not (ltb_ℤ b a)

-- `std::sort` of the distinct priorities: each new one is put in its place.
unfoldable pub insert_priority : ℤ → List ℤ → List ℤ
insert_priority p [] = p ∷ []
insert_priority p (q ∷ qs) =
    if ltb_ℤ p q then p ∷ q ∷ qs else if ltb_ℤ q p then q ∷ insert_priority p qs else q ∷ qs

unfoldable pub priorities : List SupervisorModuleSpec → List ℤ
priorities [] = []
priorities (spec ∷ specs) = insert_priority spec.startup_priority (priorities specs)

-- `grouped[priority]`: the modules of a priority, in the order of the launch plan.
unfoldable pub group_of : ℤ → List SupervisorModuleSpec → List SupervisorModuleSpec
group_of p [] = []
group_of p (spec ∷ specs) =
    if same_priority spec.startup_priority p then spec ∷ group_of p specs else group_of p specs

-- One batch for each priority; `shuffle k` is the reordering that the generator makes at its k-th
-- call.
unfoldable pub batches_from :
    (ℕ → List SupervisorModuleSpec → List SupervisorModuleSpec)
    → ℕ
    → List SupervisorModuleSpec
    → List ℤ
    → List (List SupervisorModuleSpec)
batches_from shuffle k modules [] = []
batches_from shuffle k modules (p ∷ ps) =
    shuffle k (group_of p modules) ∷ batches_from shuffle (k + 1) modules ps

abbrev pub module_names : List SupervisorModuleSpec → List String
module_names = map (λ spec. spec.module_name)

abbrev pub module_count : List ℤ → ℕ
module_count [] = 0
module_count (p ∷ ps) = suc (module_count ps)

unfoldable pub build_initial_startup_batches :
    (ℕ → List SupervisorModuleSpec → List SupervisorModuleSpec)
    → List SupervisorModuleSpec
    → Supervisor
    → List (List SupervisorModuleSpec) × Supervisor
build_initial_startup_batches shuffle modules s =
    let batches = batches_from shuffle s.draws modules (priorities modules) in
    (
      batches,
      record s {
        draws = s.draws + module_count (priorities modules);
        observability = record s.observability {
          startup_order_trace =
              s.observability.startup_order_trace ++ module_names (flatten batches);
        };
      },
    )

abbrev pub is_short : List SupervisorModuleSpec → Bool
is_short [] = true
is_short (a ∷ []) = true
is_short (a ∷ b ∷ rest) = false

unfoldable pub order_same_priority_restart_batch :
    (ℕ → List SupervisorModuleSpec → List SupervisorModuleSpec)
    → List SupervisorModuleSpec
    → Supervisor
    → List SupervisorModuleSpec × Supervisor
order_same_priority_restart_batch shuffle pending s =
    let ordered = if is_short pending then pending else shuffle s.draws pending in
    (
      ordered,
      record s {
        draws = if is_short pending then s.draws else s.draws + 1;
        observability = record s.observability {
          restart_order_trace = s.observability.restart_order_trace ++ module_names ordered;
        };
      },
    )
