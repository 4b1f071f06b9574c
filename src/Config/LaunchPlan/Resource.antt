-- ===== src/Config/LaunchPlan/Resource.antt =====
-- The required fields of a module's resource.
pub mod Normal
use mould_system_backend.Common.{
  ℕ, ℤ, Bool, true, false, ◌||◌, Bytes, bytes_eq, bytes_eq→eq, bytes_eq_refl, Option, none, some,
  List, [], ◌∷◌, if◌then◌else◌, Dict, find, assign, find-assign, Checked, done, refused, ◌>>=◌,
  >>=-done, ◌≡◌, refl, sym, ap, subst, ◌∙◌, arith, Bool-cases, inl, inr,
}
use mould_system_backend.Config.Decimal.{to_string}
use mould_system_backend.Config.LaunchPlan.{
  LaunchPlanScalar, text_scalar, int_scalar, real_scalar, bool_scalar, ResourceSchema, Doubles,
  PlanError, field_missing, cpu_set_missing, cpu_set_not_text,
}
use mould_system_backend.Config.LaunchPlan.Scalars.{try_extract_int64}
use mould_system_backend.Config.LaunchPlan.CpuSet.{
  validate_and_normalize_cpu_set, validate_and_normalize_cpu_set-idempotent,
}

abbrev pub Resource : Type 0
Resource = Dict LaunchPlanScalar

abbrev pub startup_priority_key : Bytes
startup_priority_key =
    b's' ∷ b't' ∷ b'a' ∷ b'r' ∷ b't' ∷ b'u' ∷ b'p' ∷ b'_' ∷ b'p' ∷ b'r' ∷ b'i' ∷ b'o' ∷ b'r' ∷ b'i'
    ∷ b't' ∷ b'y' ∷ []

abbrev pub cpu_set_key : Bytes
cpu_set_key = b'c' ∷ b'p' ∷ b'u' ∷ b'_' ∷ b's' ∷ b'e' ∷ b't' ∷ []

abbrev pub cpu_id_key : Bytes
cpu_id_key = b'c' ∷ b'p' ∷ b'u' ∷ b'_' ∷ b'i' ∷ b'd' ∷ []

abbrev pub restart_backoff_ms_key : Bytes
restart_backoff_ms_key =
    b'r' ∷ b'e' ∷ b's' ∷ b't' ∷ b'a' ∷ b'r' ∷ b't' ∷ b'_' ∷ b'b' ∷ b'a' ∷ b'c' ∷ b'k' ∷ b'o' ∷ b'f'
    ∷ b'f' ∷ b'_' ∷ b'm' ∷ b's' ∷ []

abbrev pub restart_max_retries_key : Bytes
restart_max_retries_key =
    b'r' ∷ b'e' ∷ b's' ∷ b't' ∷ b'a' ∷ b'r' ∷ b't' ∷ b'_' ∷ b'm' ∷ b'a' ∷ b'x' ∷ b'_' ∷ b'r' ∷ b'e'
    ∷ b't' ∷ b'r' ∷ b'i' ∷ b'e' ∷ b's' ∷ []

abbrev pub restart_window_ms_key : Bytes
restart_window_ms_key =
    b'r' ∷ b'e' ∷ b's' ∷ b't' ∷ b'a' ∷ b'r' ∷ b't' ∷ b'_' ∷ b'w' ∷ b'i' ∷ b'n' ∷ b'd' ∷ b'o' ∷ b'w'
    ∷ b'_' ∷ b'm' ∷ b's' ∷ []

abbrev pub restart_fuse_ms_key : Bytes
restart_fuse_ms_key =
    b'r' ∷ b'e' ∷ b's' ∷ b't' ∷ b'a' ∷ b'r' ∷ b't' ∷ b'_' ∷ b'f' ∷ b'u' ∷ b's' ∷ b'e' ∷ b'_' ∷ b'm'
    ∷ b's' ∷ []

abbrev pub ready_timeout_ms_key : Bytes
ready_timeout_ms_key =
    b'r' ∷ b'e' ∷ b'a' ∷ b'd' ∷ b'y' ∷ b'_' ∷ b't' ∷ b'i' ∷ b'm' ∷ b'e' ∷ b'o' ∷ b'u' ∷ b't' ∷ b'_'
    ∷ b'm' ∷ b's' ∷ []

abbrev pub required_int : Doubles → Bytes → Option LaunchPlanScalar → Checked PlanError ℤ
required_int doubles key none = refused (field_missing key)
required_int doubles key (some v) = try_extract_int64 doubles v

unfoldable pub lookup_required_int : Doubles → Bytes → Resource → Checked PlanError ℤ
unfolding try_extract_int64
lookup_required_int doubles key resource = required_int doubles key (find key resource)

-- The processor of an old plan, as a set.
abbrev pub legacy_cpu_set :
    Doubles → Resource → Option LaunchPlanScalar → Checked PlanError Resource
legacy_cpu_set doubles resource none = refused cpu_set_missing
legacy_cpu_set doubles resource (some v) = try_extract_int64 doubles v >>= λ cpu.
    done (assign cpu_set_key (text_scalar (to_string cpu)) resource)

abbrev pub with_cpu_set : Doubles → Resource → Option LaunchPlanScalar → Checked PlanError Resource
with_cpu_set doubles resource (some v) = done resource
with_cpu_set doubles resource none = legacy_cpu_set doubles resource (find cpu_id_key resource)

abbrev pub cpu_set_text : Option LaunchPlanScalar → Checked PlanError Bytes
cpu_set_text (some (text_scalar s)) = done s
cpu_set_text none = refused cpu_set_missing
cpu_set_text _ = refused cpu_set_not_text

-- The resource with the normal form, and the normal form.
unfoldable pub lookup_required_cpu_set : Doubles → Resource → Checked PlanError (Resource × Bytes)
unfolding validate_and_normalize_cpu_set try_extract_int64
lookup_required_cpu_set doubles resource =
    with_cpu_set doubles resource (find cpu_set_key resource) >>= λ completed.
    cpu_set_text (find cpu_set_key completed) >>= λ text.
    validate_and_normalize_cpu_set doubles text >>= λ normal.
    done (assign cpu_set_key (text_scalar normal) completed, normal)

-- `ResourceSchemaValidator::ValidateAndNormalize` of pointers that are not null.
unfoldable pub validate_and_normalize :
    Doubles → Resource → Checked PlanError (Resource × ResourceSchema)
unfolding lookup_required_int lookup_required_cpu_set
validate_and_normalize doubles resource =
    lookup_required_int doubles startup_priority_key resource >>= λ priority.
    lookup_required_cpu_set doubles resource >>= λ normalized.
    lookup_required_int doubles restart_backoff_ms_key normalized.0 >>= λ backoff.
    lookup_required_int doubles restart_max_retries_key normalized.0 >>= λ retries.
    lookup_required_int doubles restart_window_ms_key normalized.0 >>= λ window.
    lookup_required_int doubles restart_fuse_ms_key normalized.0 >>= λ fuse.
    lookup_required_int doubles ready_timeout_ms_key normalized.0 >>= λ timeout. done (
      normalized.0,
      record {
        startup_priority = priority;
        cpu_set = normalized.1;
        restart_backoff_ms = backoff;
        restart_max_retries = retries;
        restart_window_ms = window;
        restart_fuse_ms = fuse;
        ready_timeout_ms = timeout;
      },
    )
