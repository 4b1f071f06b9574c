-- ===== src/Ring/Progress.antt =====
-- A producer does not wait for ever: once every online consumer is less than a lap behind and the
-- slot of the next sequence is not held by another producer, two rounds are enough.
use Prim.Native.String.{String}
use native.Mathlib.Nat.{div-add-mod', div-mul-le_self}
use mould_system_backend.Common.{
  ℕ, zero, suc, List, Option, none, some, ◌+◌, ◌-◌, ◌*◌, ◌/◌, ◌%◌, ◌^◌, ◌≤◌, ◌<◌, ◌≡◌, ◌≢◌, ◌⊎◌,
  inl, inr, refl, sym, ap, subst, ◌∙◌, arith, ℕ_discrete, dec_lt, length, u32_mod, max,
  if◌then◌else◌,
}
use mould_system_backend.Ring.State.{Ring, ConsumerCursor, online, is_online}
use mould_system_backend.Ring.Slots.{per_slot_capacity, slot_of, reserve_publish_slot_ring_ordered}
use mould_system_backend.Ring.Reclaim.{
  lower, scan_min, min_active_read_sequence, reclaim_from, reclaim_committed_slots,
  try_reclaim_slot_if_safe,
}
use mould_system_backend.Ring.Metrics.{RingHealthMetrics, observe_health_metrics}
use mould_system_backend.Ring.Publish.{
  MessageEnvelope, published, reserve_loop, after_reserve, publish_committed_payload,
}
use mould_system_backend.Ring.Invariant.{IsSafe}
use mould_system_backend.Ring.Log.{mul_mono}
use mould_system_backend.Ring.Waiting.{reserve_loop_fail, reserve_loop_success}
use mould_system_backend.Ring.Append.{after_reserve_lem}
use mould_system_backend.Ring.Safety.Reserve.{
  reserved_ring, reservation_of, reserve_outcome, CanReserve,
}
use mould_system_backend.Ring.Safety.Reclaim.{
  reclaim_outcome, reclaim-keep, reclaim_committed_slots-IsSafe, le-min_active,
}

-- Two numbers with the same remainder are a divisor apart.
mod-gap : (a b n : ℕ) → 0 < n → a % n ≡ b % n → a < b → a + n ≤ b
mod-gap a b n pos e lt = elim (dec_lt (a / n) (b / n)) [
  | yes up ↦
      omega
        (arith, mul_mono (a / n + 1) (b / n) n (omega arith), div-add-mod' a n, div-add-mod' b n)
  | no down ↦
      absurd (
        omega (arith, mul_mono (b / n) (a / n) n (omega arith), div-add-mod' a n, div-add-mod' b n))
]

scan_min_frame :
    (k i : ℕ) (m : Option ℕ) (r t : Ring)
    → t.consumers ≡ r.consumers
    → scan_min k i m t ≡ scan_min k i m r
unfolding scan_min
scan_min_frame zero i m r t e = refl
scan_min_frame (suc k) i m r t e =
    scan_min_frame k (i + 1) _ r t e
    ∙ ap
        (λ (f : ℕ → ConsumerCursor).
          scan_min k (i + 1) (if is_online (f i).state then lower m (f i).read_sequence else m) r)
        e

-- What reclaiming leaves alone.
pub record Frame (r t : Ring) : Type 0 where
  pub slot_count : t.slot_count ≡ r.slot_count
  pub region : t.payload_region_bytes ≡ r.payload_region_bytes
  pub next : t.next_sequence ≡ r.next_sequence
  pub capacity : t.consumer_capacity ≡ r.consumer_capacity
  pub consumers : t.consumers ≡ r.consumers

pub try_reclaim-Frame :
    (r : Ring) (i : ℕ) (t : Ring) → Frame r t → Frame r (try_reclaim_slot_if_safe i t).1
try_reclaim-Frame r i t f = elim (reclaim_outcome i t) [
  | inl (e, _) ↦ rw e f
  | inr (e, _, _, _) ↦ rw e (record {
    slot_count = f.slot_count;
    region = f.region;
    next = f.next;
    capacity = f.capacity;
    consumers = f.consumers;
  })
]

pub Frame-refl : (r : Ring) → Frame r r
Frame-refl r = record {
  slot_count = refl;
  region = refl;
  next = refl;
  capacity = refl;
  consumers = refl;
}

pub reclaim-Frame : (r : Ring) → Frame r (reclaim_committed_slots r).1
reclaim-Frame r = reclaim-keep (Frame r) (try_reclaim-Frame r) r (Frame-refl r)

min_active-Frame :
    (r t : Ring) → Frame r t → min_active_read_sequence t ≡ min_active_read_sequence r
unfolding min_active_read_sequence
min_active-Frame r t f =
    simp (f.capacity, scan_min_frame r.consumer_capacity 0 none r t f.consumers) (ground arith)

-- A slot that is empty, or that everyone online has passed, is empty after the loop.
abbrev Freeable : ℕ → Ring → Type 0
Freeable i r =
    ((r.slots i).state_sequence % 2 ^ 32 ≡ 0)
    ⊎ (((r.slots i).state_sequence % 2 ^ 32 ≡ 2)
        × ((r.slots i).state_sequence / 2 ^ 32 < min_active_read_sequence r))

try_reclaim-empty :
    (i j : ℕ) (r : Ring)
    → (r.slots i).state_sequence % 2 ^ 32 ≡ 0
    → ((try_reclaim_slot_if_safe j r).1.slots i).state_sequence % 2 ^ 32 ≡ 0
try_reclaim-empty i j r z = ground (arith, reclaim_outcome j r)

reclaim_from-empty :
    (i k j n : ℕ) (r : Ring)
    → (r.slots i).state_sequence % 2 ^ 32 ≡ 0
    → ((reclaim_from k j n r).1.slots i).state_sequence % 2 ^ 32 ≡ 0
unfolding reclaim_from
reclaim_from-empty i zero j n r z = z
reclaim_from-empty i (suc k) j n r z =
    reclaim_from-empty i k (j + 1) _ (try_reclaim_slot_if_safe j r).1 (try_reclaim-empty i j r z)

try_reclaim-Freeable :
    (i j : ℕ) (r : Ring) → i ≢ j → Freeable i r → Freeable i (try_reclaim_slot_if_safe j r).1
try_reclaim-Freeable i j r ne f =
    let m =
      min_active-Frame r (try_reclaim_slot_if_safe j r).1
        (try_reclaim-Frame r j r (Frame-refl r)) in
    ground (arith, reclaim_outcome j r, m)

try_reclaim_frees :
    (i : ℕ) (r : Ring)
    → i < r.slot_count
    → Freeable i r
    → ((try_reclaim_slot_if_safe i r).1.slots i).state_sequence % 2 ^ 32 ≡ 0
try_reclaim_frees i r hi f = ground (arith, reclaim_outcome i r)

reclaim_from_frees :
    (i k j n : ℕ) (r : Ring)
    → i < r.slot_count
    → j ≤ i
    → i < j + k
    → Freeable i r
    → ((reclaim_from k j n r).1.slots i).state_sequence % 2 ^ 32 ≡ 0
unfolding reclaim_from
reclaim_from_frees i zero j n r hi lo up f = absurd (omega arith)
reclaim_from_frees i (suc k) j n r hi lo up f = elim (ℕ_discrete i j) [
  | yes e ↦
      reclaim_from-empty i k (j + 1) _ (try_reclaim_slot_if_safe j r).1
        (rw (sym e) (try_reclaim_frees i r hi f))
  | no ne ↦
      reclaim_from_frees i k (j + 1) _ (try_reclaim_slot_if_safe j r).1
        (rw ((try_reclaim-Frame r j r (Frame-refl r)).slot_count) hi) (omega arith) (omega arith)
        (try_reclaim-Freeable i j r ne f)
]

reclaim_frees :
    (i : ℕ) (r : Ring)
    → i < r.slot_count
    → Freeable i r
    → ((reclaim_committed_slots r).1.slots i).state_sequence % 2 ^ 32 ≡ 0
unfolding reclaim_committed_slots
reclaim_frees i r hi f = reclaim_from_frees i r.slot_count 0 0 r hi (omega arith) (omega arith) f

-- Nobody online is a whole lap behind the head.
abbrev pub WithinLap : Ring → Type 0
WithinLap r =
    (c : ℕ)
    → c < r.consumer_capacity
    → (r.consumers c).state ≡ online
    → r.next_sequence < (r.consumers c).read_sequence + r.slot_count

-- The slot of the next sequence is then free or can be freed, unless a producer holds it.
head-Freeable :
    (r : Ring)
    → IsSafe r
    → WithinLap r
    → ((r.slots (slot_of r r.next_sequence)).state_sequence % 2 ^ 32 ≡ 0)
      ⊎ ((r.slots (slot_of r r.next_sequence)).state_sequence % 2 ^ 32 ≡ 2)
    → Freeable (slot_of r r.next_sequence) r
head-Freeable r v near (inl z) = inl z
head-Freeable r v near (inr two) =
    let i = slot_of r r.next_sequence in
    let p = (r.slots i).state_sequence / 2 ^ 32 in
    let o = v.own i (omega (arith, v.some_slots)) (omega arith) in
    let lap : p + r.slot_count ≤ r.next_sequence =
      omega (
        arith,
        mod-gap (p - 1) (r.next_sequence - 1) r.slot_count v.some_slots o.0 (omega arith),
      ) in
    let passed : p + 1 ≤ min_active_read_sequence r =
      le-min_active r (p + 1) (omega arith) (λ c hc on. omega (arith, near c hc on)) in
    inr (two, omega arith)

module _ (payload : List ℕ) (r : Ring) (v : IsSafe r) (some_bytes : 0 < length payload)
    (fits : length payload ≤ per_slot_capacity r) where
  in_region :
      slot_of r r.next_sequence * per_slot_capacity r + length payload ≤ r.payload_region_bytes
  in_region =
      let i = slot_of r r.next_sequence in
      let e : max r.slot_count 1 ≡ r.slot_count = omega (arith, v.some_slots) in
      let b : per_slot_capacity r * r.slot_count ≤ r.payload_region_bytes =
        subst (λ (k : ℕ). per_slot_capacity r * k ≤ r.payload_region_bytes) e
          (div-mul-le_self r.payload_region_bytes (max r.slot_count 1)) in
      omega (
        arith,
        mul_mono (i + 1) r.slot_count (per_slot_capacity r) (omega (arith, v.some_slots)),
        b,
      )

  can_reserve :
      (r.slots (slot_of r r.next_sequence)).state_sequence % 2 ^ 32 ≡ 0
      → CanReserve (length payload) r
  can_reserve z = record {
    some_bytes = omega arith;
    fits = fits;
    head_pos = omega (arith, v.head_pos);
    in_region = in_region;
    free = z;
  }

-- What is enough for a reservation.
reserve_succeeds :
    (size : ℕ) (r : Ring)
    → 0 < r.slot_count
    → CanReserve size r
    → reserve_publish_slot_ring_ordered size r
      ≡ (some (reservation_of size r, slot_of r r.next_sequence), reserved_ring size r)
unfolding reserve_publish_slot_ring_ordered
reserve_succeeds size r pos g = ground arith

per_slot-Frame : (r t : Ring) → Frame r t → per_slot_capacity t ≡ per_slot_capacity r
per_slot-Frame r t f = simp (f.region, f.slot_count)

slot_of-Frame : (r t : Ring) → Frame r t → slot_of t t.next_sequence ≡ slot_of r r.next_sequence
slot_of-Frame r t f = simp (f.next, f.slot_count)

-- The loop has reserved in a ring with the same head.
record Reserved (others : ℕ → Ring → Ring) (size fuel : ℕ) (r : Ring) : Type 0 where
  start : Ring
  safe : IsSafe start
  head : start.next_sequence ≡ r.next_sequence
  loop : reserve_loop others size 0 fuel r ≡ (
    some (reservation_of size start, slot_of start start.next_sequence),
    reserved_ring size start,
  )

module _ (others : ℕ → Ring → Ring) (payload : List ℕ) (r : Ring) (v : IsSafe r)
    (some_bytes : 0 < length payload) (fits : length payload ≤ per_slot_capacity r) where
  first_round :
      (fuel : ℕ)
      → (r.slots (slot_of r r.next_sequence)).state_sequence % 2 ^ 32 ≡ 0
      → Reserved others (length payload) (suc fuel) r
  first_round fuel z = record {
    start = r;
    safe = v;
    head = refl;
    loop = reserve_loop_success others (length payload) 0 fuel r (
        reserve_succeeds (length payload) r v.some_slots
          (can_reserve payload r v some_bytes fits z));
  }

  second_round :
      (fuel : ℕ)
      → others 0 (reclaim_committed_slots r).1 ≡ (reclaim_committed_slots r).1
      → (r.slots (slot_of r r.next_sequence)).state_sequence % 2 ^ 32 ≡ 2
      → Freeable (slot_of r r.next_sequence) r
      → Reserved others (length payload) (suc (suc fuel)) r
  second_round fuel quiet two free =
      let q = (reclaim_committed_slots r).1 in
      let f = reclaim-Frame r in
      let w = reclaim_committed_slots-IsSafe r v in
      let z : (q.slots (slot_of q q.next_sequence)).state_sequence % 2 ^ 32 ≡ 0 =
        rw (slot_of-Frame r q f)
          (reclaim_frees (slot_of r r.next_sequence) r (omega (arith, v.some_slots)) free) in
      record {
        start = q;
        safe = w;
        head = f.next;
        loop =
            reserve_loop_fail others (length payload) 0 (suc fuel) r fails
            ∙ ap (reserve_loop others (length payload) 1 (suc fuel)) quiet
            ∙ reserve_loop_success others (length payload) 1 fuel q (
                reserve_succeeds (length payload) q w.some_slots
                  (can_reserve payload q w some_bytes (rw (per_slot-Frame r q f) fits) z));
      }
    where
      fails : reserve_publish_slot_ring_ordered (length payload) r ≡ (none, r)
      fails = elim (reserve_outcome (length payload) r) [
        | inl e ↦ e
        | inr (g, e) ↦ absurd (omega (arith, g.free))
      ]

  Reserved-in_two :
      (fuel : ℕ)
      → others 0 (reclaim_committed_slots r).1 ≡ (reclaim_committed_slots r).1
      → ((r.slots (slot_of r r.next_sequence)).state_sequence % 2 ^ 32 ≡ 0)
        ⊎ ((r.slots (slot_of r r.next_sequence)).state_sequence % 2 ^ 32 ≡ 2)
      → WithinLap r
      → Reserved others (length payload) (suc (suc fuel)) r
  Reserved-in_two fuel quiet (inl z) near = first_round (suc fuel) z
  Reserved-in_two fuel quiet (inr two) near =
      second_round fuel quiet two (head-Freeable r v near (inr two))

  published_forward :
      (elapsed fuel : ℕ) (channel : String)
      → length payload < 2 ^ 32
      → publish_committed_payload others elapsed fuel channel payload r
        ≡ after_reserve channel payload elapsed
            (observe_health_metrics r)
            (reserve_loop others (length payload) 0 fuel r)
  unfolding publish_committed_payload
  published_forward elapsed fuel channel word =
      let e : length payload % u32_mod ≡ length payload = omega arith in
      ground (arith, e, in_region payload r v some_bytes fits, v.some_slots)

-- A producer is not stuck: a payload that is not empty, fits a slot and is below 2 ^ 32 bytes is
-- published within two rounds, under the next sequence, if that is below 2 ^ 32, nobody online is a
-- lap behind, no other producer holds the slot of that sequence, and nothing else happens to the ring
-- in the first yield.
pub publish_succeeds :
    (others : ℕ → Ring → Ring) (elapsed fuel : ℕ) (channel : String) (payload : List ℕ) (r : Ring)
    → IsSafe r
    → r.next_sequence < 2 ^ 32
    → 0 < length payload
    → length payload ≤ per_slot_capacity r
    → length payload < 2 ^ 32
    → others 0 (reclaim_committed_slots r).1 ≡ (reclaim_committed_slots r).1
    → WithinLap r
    → ((r.slots (slot_of r r.next_sequence)).state_sequence % 2 ^ 32 ≡ 0)
      ⊎ ((r.slots (slot_of r r.next_sequence)).state_sequence % 2 ^ 32 ≡ 2)
    → (env : MessageEnvelope) × (before : RingHealthMetrics) × (after : RingHealthMetrics)
      × (t : Ring) × (publish_committed_payload others elapsed (suc (suc fuel)) channel payload r
          ≡ (published env before after, t))
      × (env.sequence ≡ r.next_sequence)
      × (env.payload ≡ payload)
publish_succeeds others elapsed fuel channel payload r v small some_bytes fits word quiet near own =
    let done = Reserved-in_two others payload r v some_bytes fits fuel quiet own near in
    (
      _,
      _,
      _,
      _,
      published_forward others payload r v some_bytes fits elapsed (suc (suc fuel)) channel word
          ∙ ap (after_reserve channel payload elapsed (observe_health_metrics r)) done.loop
          ∙ after_reserve_lem channel payload elapsed (observe_health_metrics r) done.start
              done.safe (omega (arith, done.head)),
      done.head,
      refl,
    )
