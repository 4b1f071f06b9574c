-- ===== src/Supervisor/Batches.antt =====
-- The batches of the first start and of a restart: complete, and in the order of the priorities.
use mathlib.Core.Logic.Or
use mathlib.Core.Bool.{Bool-set}
use mathlib.Core.List.{not-mem-nil, eq-or-mem_of_mem-cons, Perm, Mem, flatten, perm_middle}
use mathlib.Core.List.Perm
use mould_system_backend.Common.{
  ℕ, ℤ, pos_part, neg_part, Bool, true, false, List, [], ◌∷◌, ◌++◌, ◌+◌, ◌<◌, ◌≤◌, ◌≡◌, inl, inr,
  refl, arith, subst, if◌then◌else◌, Bool-cases, eq_of_parts,
}
use mould_system_backend.Supervisor.{Supervisor, SupervisorModuleSpec}
use mould_system_backend.Supervisor.Startup.{
  same_priority, insert_priority, priorities, group_of, batches_from, build_initial_startup_batches,
  order_same_priority_restart_batch, module_names, is_short,
}

infix 50 ◌<ℤ◌
abbrev ◌<ℤ◌ : ℤ → ℤ → Type 0
a <ℤ b = pos_part a + neg_part b < pos_part b + neg_part a

-- Each priority is above the ones before it.
abbrev pub Ascending : List ℤ → Type 0
Ascending [] = Unit {0}
Ascending (p ∷ []) = Unit {0}
Ascending (p ∷ q ∷ qs) = (p <ℤ q) × Ascending (q ∷ qs)

insert_priority-Ascending : (p : ℤ) (ps : List ℤ) → Ascending ps → Ascending (insert_priority p ps)
unfolding insert_priority
insert_priority-Ascending p [] a = tt
insert_priority-Ascending p (q ∷ []) a = ground arith
insert_priority-Ascending p (q ∷ r ∷ rs) a =
    ground (arith, insert_priority-Ascending p (r ∷ rs) a.1)

priorities-Ascending : (specs : List SupervisorModuleSpec) → Ascending (priorities specs)
unfolding priorities
priorities-Ascending [] = tt
priorities-Ascending (spec ∷ specs) =
    insert_priority-Ascending spec.startup_priority (priorities specs) (priorities-Ascending specs)

abbrev has_priority : ℤ → List ℤ → Bool
has_priority r [] = false
has_priority r (q ∷ qs) = if same_priority r q then true else has_priority r qs

has_priority-below :
    (r q : ℤ) (qs : List ℤ)
    → Ascending (q ∷ qs)
    → pos_part r + neg_part q ≤ pos_part q + neg_part r
    → has_priority r qs ≡ false
has_priority-below r q [] a h = refl
has_priority-below r q (p ∷ ps) a h = ground (arith, has_priority-below r p ps a.1)

-- The modules whose priority is listed.
abbrev members : List ℤ → List SupervisorModuleSpec → List SupervisorModuleSpec
members ps [] = []
members ps (spec ∷ specs) =
    if has_priority spec.startup_priority ps then spec ∷ members ps specs else members ps specs

members-cons :
    (q : ℤ) (qs : List ℤ) (specs : List SupervisorModuleSpec)
    → Ascending (q ∷ qs)
    → Perm (group_of q specs ++ members qs specs) (members (q ∷ qs) specs)
unfolding group_of
members-cons q qs [] a = Perm.refl _
members-cons q qs (spec ∷ specs) a =
    let ih = members-cons q qs specs a in
    let r = spec.startup_priority in
    elim (Bool-cases (same_priority r q)) [
      | inl e ↦
          let out : has_priority r qs ≡ false = has_priority-below r q qs a (ground arith) in
          rw (e, out) (Perm.cons spec ih)
      | inr e ↦ elim (Bool-cases (has_priority r qs)) [
        | inl f ↦
            rw (e, f)
              (Perm.trans (perm_middle (group_of q specs) (members qs specs)) (Perm.cons spec ih))
        | inr f ↦ rw (e, f) ih
      ]
    ]

Ascending-rest : (p : ℤ) (ps : List ℤ) → Ascending (p ∷ ps) → Ascending ps
Ascending-rest p [] a = tt
Ascending-rest p (q ∷ qs) a = a.1

members-none : (specs : List SupervisorModuleSpec) → members [] specs ≡ []
members-none [] = refl
members-none (spec ∷ specs) = members-none specs

-- A reordering gives back the modules that it was given.
abbrev pub IsShuffle : (ℕ → List SupervisorModuleSpec → List SupervisorModuleSpec) → Type 0
IsShuffle shuffle = (k : ℕ) (batch : List SupervisorModuleSpec) → Perm (shuffle k batch) batch

batches_from-members :
    (shuffle : ℕ → List SupervisorModuleSpec → List SupervisorModuleSpec) (k : ℕ)
    (specs : List SupervisorModuleSpec) (ps : List ℤ)
    → IsShuffle shuffle
    → Ascending ps
    → Perm (flatten (batches_from shuffle k specs ps)) (members ps specs)
unfolding batches_from flatten
batches_from-members shuffle k specs [] sh a = rw (members-none specs) (Perm.refl [])
batches_from-members shuffle k specs (p ∷ ps) sh a =
    Perm.trans
      (Perm.append (sh k (group_of p specs))
        (batches_from-members shuffle (k + 1) specs ps sh (Ascending-rest p ps a)))
      (members-cons p ps specs a)

has_priority-insert :
    (r p : ℤ) (ps : List ℤ)
    → has_priority r (insert_priority p ps)
      ≡ (if same_priority r p then true else has_priority r ps)
unfolding insert_priority
has_priority-insert r p [] = refl
has_priority-insert r p (q ∷ qs) = ground (arith, has_priority-insert r p qs)

abbrev AllListed : List ℤ → List SupervisorModuleSpec → Type 0
AllListed ps [] = Unit {0}
AllListed ps (spec ∷ specs) = (has_priority spec.startup_priority ps ≡ true) × AllListed ps specs

insert-AllListed :
    (p : ℤ) (ps : List ℤ) (specs : List SupervisorModuleSpec)
    → AllListed ps specs
    → AllListed (insert_priority p ps) specs
insert-AllListed p ps [] h = tt
insert-AllListed p ps (spec ∷ specs) h = (
  ground (arith, has_priority-insert spec.startup_priority p ps),
  insert-AllListed p ps specs h.1,
)

priorities-AllListed : (specs : List SupervisorModuleSpec) → AllListed (priorities specs) specs
unfolding priorities
priorities-AllListed [] = tt
priorities-AllListed (spec ∷ specs) =
    let p = spec.startup_priority in
    (
      ground (arith, has_priority-insert p p (priorities specs)),
      insert-AllListed p (priorities specs) specs (priorities-AllListed specs),
    )

members-all :
    (ps : List ℤ) (specs : List SupervisorModuleSpec)
    → AllListed ps specs
    → members ps specs ≡ specs
members-all ps [] h = refl
members-all ps (spec ∷ specs) h = ground (arith, members-all ps specs h.1)

same_priority_lem : (a b : ℤ) → same_priority a b ≡ true → a ≡ b
same_priority_lem a b h = ground (arith, eq_of_parts a b)

group_of-same :
    (p : ℤ) (specs : List SupervisorModuleSpec) (spec : SupervisorModuleSpec)
    → Mem spec (group_of p specs)
    → same_priority spec.startup_priority p ≡ true
unfolding group_of
group_of-same p [] spec m = absurd (not-mem-nil m)
group_of-same p (s ∷ specs) spec m = elim (Bool-cases (same_priority s.startup_priority p)) [
  | inl e ↦
      let kept : group_of p (s ∷ specs) ≡ s ∷ group_of p specs = rw e refl in
      let m' = subst (λ l. Mem spec l) kept m in
      Or.elim (Bool-set _ _) (eq-or-mem_of_mem-cons m') (λ h. rw h e) (group_of-same p specs spec)
  | inr e ↦
      let dropped : group_of p (s ∷ specs) ≡ group_of p specs = rw e refl in
      group_of-same p specs spec (subst (λ l. Mem spec l) dropped m)
]

-- The batches are for the listed priorities, one for each: all modules of a batch have its priority.
abbrev pub InBatches : List ℤ → List (List SupervisorModuleSpec) → Type 0
InBatches [] [] = Unit {0}
InBatches [] (b ∷ bs) = ⊥
InBatches (p ∷ ps) [] = ⊥
InBatches (p ∷ ps) (b ∷ bs) =
    ((spec : SupervisorModuleSpec) → Mem spec b → spec.startup_priority ≡ p) × InBatches ps bs

batches_from-InBatches :
    (shuffle : ℕ → List SupervisorModuleSpec → List SupervisorModuleSpec) (k : ℕ)
    (specs : List SupervisorModuleSpec) (ps : List ℤ)
    → IsShuffle shuffle
    → InBatches ps (batches_from shuffle k specs ps)
unfolding batches_from
batches_from-InBatches shuffle k specs [] sh = tt
batches_from-InBatches shuffle k specs (p ∷ ps) sh = (
  λ spec m.
      same_priority_lem spec.startup_priority p
        (group_of-same p specs spec (Perm.subset (sh k (group_of p specs)) spec m)),
  batches_from-InBatches shuffle (k + 1) specs ps sh,
)

-- However the modules of one priority are shuffled, the batches of the first start hold every module
-- of the launch plan exactly once, each batch has the modules of one priority, the priorities rise
-- from batch to batch, and the trace records the modules in the order of the batches.
pub batches_complete :
    (shuffle : ℕ → List SupervisorModuleSpec → List SupervisorModuleSpec)
    (modules : List SupervisorModuleSpec) (s : Supervisor)
    → IsShuffle shuffle
    → let (batches, t) = build_initial_startup_batches shuffle modules s in
      Perm (flatten batches) modules
      × InBatches (priorities modules) batches
      × Ascending (priorities modules)
      × (t.observability.startup_order_trace
          ≡ s.observability.startup_order_trace ++ module_names (flatten batches))
unfolding build_initial_startup_batches
batches_complete shuffle modules s sh =
    let listed : members (priorities modules) modules ≡ modules =
      members-all (priorities modules) modules (priorities-AllListed modules) in
    let rising = priorities-Ascending modules in
    (
      subst (λ ms. Perm (flatten (batches_from shuffle s.draws modules (priorities modules))) ms)
          listed (batches_from-members shuffle s.draws modules (priorities modules) sh rising),
      batches_from-InBatches shuffle s.draws modules (priorities modules) sh,
      rising,
      refl,
    )

-- The modules of one priority that wait for a restart are all restarted, each once, in the order
-- that the trace records.
pub restart_batch_complete :
    (shuffle : ℕ → List SupervisorModuleSpec → List SupervisorModuleSpec)
    (pending : List SupervisorModuleSpec) (s : Supervisor)
    → IsShuffle shuffle
    → let (ordered, t) = order_same_priority_restart_batch shuffle pending s in
      Perm ordered pending
      × (t.observability.restart_order_trace
          ≡ s.observability.restart_order_trace ++ module_names ordered)
unfolding order_same_priority_restart_batch
restart_batch_complete shuffle pending s sh = elim (Bool-cases (is_short pending)) [
  | inl e ↦ rw e (Perm.refl pending, refl)
  | inr e ↦ rw e (sh s.draws pending, refl)
]
