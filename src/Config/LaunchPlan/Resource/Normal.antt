-- ===== src/Config/LaunchPlan/Resource/Normal.antt =====
-- The normal form of a resource.
use mould_system_backend.Common.{
  ℤ, false, Bytes, bytes_eq, bytes_eq_refl, Option, none, some, [], ◌∷◌, Dict, find, assign,
  find-assign, Checked, done, refused, >>=-done, ◌≡◌, refl, sym, ap, subst, ◌∙◌, Bool-cases, inl,
  inr,
}
use mould_system_backend.Config.Decimal.{to_string}
use mould_system_backend.Config.LaunchPlan.{
  LaunchPlanScalar, text_scalar, ResourceSchema, Doubles, PlanError,
}
use mould_system_backend.Config.LaunchPlan.Scalars.{try_extract_int64}
use mould_system_backend.Config.LaunchPlan.CpuSet.{
  validate_and_normalize_cpu_set, validate_and_normalize_cpu_set-idempotent,
}
use mould_system_backend.Config.LaunchPlan.Resource.{
  Resource, startup_priority_key, cpu_set_key, cpu_id_key, restart_backoff_ms_key,
  restart_max_retries_key, restart_window_ms_key, restart_fuse_ms_key, ready_timeout_ms_key,
  required_int, lookup_required_int, with_cpu_set, legacy_cpu_set, cpu_set_text,
  lookup_required_cpu_set, validate_and_normalize,
}

-- What a successful check of the processors gives.
lookup_required_cpu_set-parts :
    (doubles : Doubles) (resource : Resource) {result : Resource × Bytes}
    → lookup_required_cpu_set doubles resource ≡ done result
    → (completed : Resource) × (text : Bytes) × (with_cpu_set doubles resource
          (find cpu_set_key resource)
        ≡ done completed)
      × (validate_and_normalize_cpu_set doubles text ≡ done result.1)
      × (result.0 ≡ assign cpu_set_key (text_scalar result.1) completed)
unfolding lookup_required_cpu_set
lookup_required_cpu_set-parts doubles resource {result} h =
    let (completed, f, h1) =
      >>=-done (with_cpu_set doubles resource (find cpu_set_key resource)) _ h in
    let (text, g, h2) = >>=-done (cpu_set_text (find cpu_set_key completed)) _ h1 in
    let (normal, k, h3) = >>=-done (validate_and_normalize_cpu_set doubles text) _ h2 in
    let same = ap (result_or result) h3 in
    (
      completed,
      text,
      f,
      subst (λ n. validate_and_normalize_cpu_set doubles text ≡ done n) (ap (λ r. r.1) same) k,
      sym (ap (λ r. r.0) same) ∙ ap (λ r. assign cpu_set_key (text_scalar r.1) completed) same,
    )
  where
    result_or : Resource × Bytes → Checked PlanError (Resource × Bytes) → Resource × Bytes
    result_or r (done q) = q
    result_or r (refused e) = r

assign-assign :
    {A : Type 0} (key : Bytes) (v : A) (d : Dict A) → assign key v (assign key v d) ≡ assign key v d
unfolding assign
assign-assign key v [] = rw (bytes_eq_refl key) refl
assign-assign key v ((k, w) ∷ rest) = elim (Bool-cases (bytes_eq k key)) [
  | inl e ↦ rw (assign, e, assign, e) refl
  | inr e ↦ rw (assign, e, assign, e, assign-assign key v rest) refl
]

find-with_cpu_set :
    (doubles : Doubles) (resource : Resource) (found : Option LaunchPlanScalar)
    {completed : Resource}
    → with_cpu_set doubles resource found ≡ done completed
    → (key : Bytes) → bytes_eq cpu_set_key key ≡ false
    → find key completed ≡ find key resource
find-with_cpu_set doubles resource (some v) h key other =
    ap (find key) (sym (ap (resource_or resource) h))
  where
    resource_or : Resource → Checked PlanError Resource → Resource
    resource_or r (done q) = q
    resource_or r (refused e) = r
find-with_cpu_set doubles resource none h key other = from_legacy (find cpu_id_key resource) h
  where
    resource_in : Checked PlanError Resource → Resource
    resource_in (done q) = q
    resource_in (refused e) = resource

    from_legacy :
        (legacy : Option LaunchPlanScalar) {completed : Resource}
        → legacy_cpu_set doubles resource legacy ≡ done completed
        → find key completed ≡ find key resource
    from_legacy none g = cc
    from_legacy (some v) g =
        let (cpu, _, g1) = >>=-done (try_extract_int64 doubles v) _ g in
        rw
          (
            sym (ap resource_in g1),
            find-assign cpu_set_key (text_scalar (to_string cpu)) resource key,
            other,
          )
          refl

-- What the check of the processors leaves under the other keys, and that it repeats itself.
find-lookup_required_cpu_set :
    (doubles : Doubles) (resource : Resource) {result : Resource × Bytes}
    → lookup_required_cpu_set doubles resource ≡ done result
    → (key : Bytes) → bytes_eq cpu_set_key key ≡ false
    → find key result.0 ≡ find key resource
find-lookup_required_cpu_set doubles resource {result} h key other =
    let (completed, text, f, k, e) = lookup_required_cpu_set-parts doubles resource h in
    rw (e, find-assign cpu_set_key (text_scalar result.1) completed key, other)
      (find-with_cpu_set doubles resource (find cpu_set_key resource) f key other)

lookup_required_cpu_set-idempotent :
    (doubles : Doubles) (resource : Resource) {result : Resource × Bytes}
    → lookup_required_cpu_set doubles resource ≡ done result
    → lookup_required_cpu_set doubles result.0 ≡ done result
unfolding lookup_required_cpu_set
lookup_required_cpu_set-idempotent doubles resource {result} h =
    let (completed, text, f, k, e) = lookup_required_cpu_set-parts doubles resource h in
    let here : find cpu_set_key result.0 ≡ some (text_scalar result.1) =
      ap (find cpu_set_key) e
      ∙ find-assign cpu_set_key (text_scalar result.1) completed cpu_set_key in
    let kept : assign cpu_set_key (text_scalar result.1) result.0 ≡ result.0 =
      ap (assign cpu_set_key (text_scalar result.1)) e
      ∙ assign-assign cpu_set_key (text_scalar result.1) completed
      ∙ sym e in
    rw (here, here, validate_and_normalize_cpu_set-idempotent doubles text result.1 k, kept) refl

lookup_required_int-kept :
    (doubles : Doubles) (key : Bytes) (resource other : Resource) {i : ℤ}
    → find key other ≡ find key resource
    → lookup_required_int doubles key resource ≡ done i
    → lookup_required_int doubles key other ≡ done i
unfolding lookup_required_int
lookup_required_int-kept doubles key resource other e h = ap (required_int doubles key) e ∙ h

validate_and_normalize-intro :
    (doubles : Doubles) (resource : Resource) (normalized : Resource × Bytes)
    {priority backoff retries window fuse timeout : ℤ}
    → lookup_required_int doubles startup_priority_key resource ≡ done priority
    → lookup_required_cpu_set doubles resource ≡ done normalized
    → lookup_required_int doubles restart_backoff_ms_key normalized.0 ≡ done backoff
    → lookup_required_int doubles restart_max_retries_key normalized.0 ≡ done retries
    → lookup_required_int doubles restart_window_ms_key normalized.0 ≡ done window
    → lookup_required_int doubles restart_fuse_ms_key normalized.0 ≡ done fuse
    → lookup_required_int doubles ready_timeout_ms_key normalized.0 ≡ done timeout
    → validate_and_normalize doubles resource
      ≡ done (
        normalized.0,
        record {
          startup_priority = priority;
          cpu_set = normalized.1;
          restart_backoff_ms = backoff;
          restart_max_retries = retries;
          restart_window_ms = window;
          restart_fuse_ms = fuse;
          ready_timeout_ms = timeout;
        },
      )
unfolding validate_and_normalize
validate_and_normalize-intro doubles resource normalized f0 n f1 f2 f3 f4 f5 =
    rw (f0, n, f1, f2, f3, f4, f5) refl

-- A resource that is accepted comes back with its processors in normal form; checking what came back
-- accepts it, gives the same schema, and changes nothing.
pub validate_and_normalize-idempotent :
    (doubles : Doubles) (resource : Resource) (result : Resource × ResourceSchema)
    → validate_and_normalize doubles resource ≡ done result
    → validate_and_normalize doubles result.0 ≡ done result
unfolding validate_and_normalize
validate_and_normalize-idempotent doubles resource result h =
    let (priority, f0, h1) =
      >>=-done (lookup_required_int doubles startup_priority_key resource) _ h in
    let (normalized, n, h2) = >>=-done (lookup_required_cpu_set doubles resource) _ h1 in
    let (backoff, f1, h3) =
      >>=-done (lookup_required_int doubles restart_backoff_ms_key normalized.0) _ h2 in
    let (retries, f2, h4) =
      >>=-done (lookup_required_int doubles restart_max_retries_key normalized.0) _ h3 in
    let (window, f3, h5) =
      >>=-done (lookup_required_int doubles restart_window_ms_key normalized.0) _ h4 in
    let (fuse, f4, h6) =
      >>=-done (lookup_required_int doubles restart_fuse_ms_key normalized.0) _ h5 in
    let (timeout, f5, h7) =
      >>=-done (lookup_required_int doubles ready_timeout_ms_key normalized.0) _ h6 in
    let first : lookup_required_int doubles startup_priority_key normalized.0 ≡ done priority =
      lookup_required_int-kept doubles startup_priority_key resource normalized.0
        (find-lookup_required_cpu_set doubles resource n startup_priority_key refl) f0 in
    subst (λ r. validate_and_normalize doubles r.0 ≡ done r) (ap (result_or result) h7)
      (validate_and_normalize-intro doubles normalized.0 normalized first
        (lookup_required_cpu_set-idempotent doubles resource n) f1 f2 f3 f4 f5)
  where
    result_or :
        Resource × ResourceSchema
        → Checked PlanError (Resource × ResourceSchema)
        → Resource × ResourceSchema
    result_or r (done q) = q
    result_or r (refused e) = r
