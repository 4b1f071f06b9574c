-- ===== src/Ring/Safety/Layout.antt =====
-- The memory that `Initialize` sets up satisfies the invariant, and `Attach` accepts it.
use mould_system_backend.Common.{
  ℕ, zero, suc, ℤ, some, ◌+◌, ◌≤◌, ◌<◌, ◌≡◌, refl, sym, ap, subst, arith, u64_mod,
}
use mould_system_backend.Ring.State.{Ring, ring_layout_version}
use mould_system_backend.Ring.Metrics.{set_consumer_notification_fd}
use mould_system_backend.Ring.Layout.{
  initialize, attach, open_notifications, fresh_ring, compute_ring_layout_size_bytes,
  sizeof_ring_header,
}
use mould_system_backend.Ring.Invariant.{IsSafe}

-- Opening the descriptors changes no table but theirs.
open_notifications_lem :
    (eventfd : ℕ → ℤ) (k i : ℕ) (r : Ring) {t : Ring}
    → open_notifications eventfd k i r ≡ some t
    → t ≡ record r { notification_mappings = t.notification_mappings }
unfolding open_notifications set_consumer_notification_fd
open_notifications_lem eventfd zero i r h = ground arith
open_notifications_lem eventfd (suc k) i r {t} h = ground (
  arith,
  open_notifications_lem eventfd k (i + 1) (set_consumer_notification_fd i (eventfd i) r).1 {t = t},
)

fresh_ring-IsSafe : (n c b : ℕ) → 0 < n → IsSafe (fresh_ring n c b)
fresh_ring-IsSafe n c b h = record {
  some_slots = h;
  head_pos = omega arith;
  head_small = omega arith;
  own = λ i hi occ. absurd (occ refl);
  shard = λ i hi occ. absurd (occ refl);
  cursor = λ d hd on. cc;
  kept = λ d q hd on lo hi. cc;
}

with_notifications-IsSafe :
    (r : Ring) (m : ℕ → ℤ) → IsSafe r → IsSafe (record r { notification_mappings = m })
with_notifications-IsSafe r m v = record {
  some_slots = v.some_slots;
  head_pos = v.head_pos;
  head_small = v.head_small;
  own = v.own;
  shard = v.shard;
  cursor = v.cursor;
  kept = v.kept;
}

layout_size-ge_header : (n c : ℕ) → sizeof_ring_header ≤ compute_ring_layout_size_bytes n c
unfolding compute_ring_layout_size_bytes
layout_size-ge_header n c = omega arith

-- `Initialize`, when it succeeds on a mapping whose two regions add up without wrapping, has set up
-- a ring that satisfies the invariant and that `Attach` accepts with the same mapping size.
pub initialize-IsSafe :
    (eventfd : ℕ → ℤ) (total n c b : ℕ) {r : Ring}
    → initialize eventfd total n c b ≡ some r
    → compute_ring_layout_size_bytes n c + b < u64_mod
    → IsSafe r × (attach total ring_layout_version r ≡ some r)
unfolding initialize attach
initialize-IsSafe eventfd total n c b {r} h fits =
    let e : r ≡ record (fresh_ring n c b) { notification_mappings = r.notification_mappings } =
      open_notifications_lem eventfd c 0 (fresh_ring n c b) (ground arith) in
    (
      subst IsSafe (sym e) (
          with_notifications-IsSafe (fresh_ring n c b) r.notification_mappings
            (fresh_ring-IsSafe n c b (ground arith))),
      ground (arith, layout_size-ge_header n c, ap (λ (q : Ring). q.header) e),
    )
