-- ===== src/Ring/Safety/Reclaim.antt =====
-- Reclaiming keeps the ring's invariant: it frees only what every online consumer has passed.
use mould_system_backend.Common.{
  ℕ, zero, suc, Option, none, some, true, false, ◌+◌, ◌/◌, ◌%◌, ◌^◌, ◌≤◌, ◌<◌, ◌≡◌, ◌≢◌, ◌⊎◌, inl,
  inr, arith, ℕ_discrete,
}
use mould_system_backend.Ring.Control.{empty, pack_slot_control}
use mould_system_backend.Ring.State.{Ring, store_control, online}
use mould_system_backend.Ring.Reclaim.{
  scan_min, min_active_read_sequence, finish_reclaim, try_reclaim_slot_if_safe, reclaim_from,
  reclaim_committed_slots,
}
use mould_system_backend.Ring.Invariant.{IsSafe}

abbrev AtMost : Option ℕ → ℕ → Type 0
AtMost none a = ⊥
AtMost (some m) a = m ≤ a

abbrev AtLeast : ℕ → Option ℕ → Type 0
AtLeast b none = Unit {0}
AtLeast b (some m) = b ≤ m

scan_min-AtMost :
    (k i : ℕ) (m : Option ℕ) (r : Ring) (a : ℕ) → AtMost m a → AtMost (scan_min k i m r) a
unfolding scan_min
scan_min-AtMost zero i m r a h = h
scan_min-AtMost (suc k) i m r a h = scan_min-AtMost k (i + 1) _ r a (ground arith)

scan_min-le_online :
    (k i : ℕ) (m : Option ℕ) (r : Ring) (c : ℕ)
    → i ≤ c
    → c < i + k
    → (r.consumers c).state ≡ online
    → AtMost (scan_min k i m r) (r.consumers c).read_sequence
unfolding scan_min
scan_min-le_online zero i m r c lo hi on = absurd (omega arith)
scan_min-le_online (suc k) i m r c lo hi on = elim (ℕ_discrete i c) [
  | yes e ↦ scan_min-AtMost k (i + 1) _ r (r.consumers c).read_sequence (ground arith)
  | no ne ↦ scan_min-le_online k (i + 1) _ r c (omega arith) (omega arith) on
]

scan_min-AtLeast :
    (k i : ℕ) (m : Option ℕ) (r : Ring) (b : ℕ)
    → ((c : ℕ)
        → i ≤ c
        → c < i + k
        → (r.consumers c).state ≡ online
        → b ≤ (r.consumers c).read_sequence)
    → AtLeast b m
    → AtLeast b (scan_min k i m r)
unfolding scan_min
scan_min-AtLeast zero i m r b all h = h
scan_min-AtLeast (suc k) i m r b all h =
    scan_min-AtLeast k (i + 1) _ r b (λ c lo hi on. all c (omega arith) (omega arith) on)
      (ground (arith, all i (omega arith) (omega arith)))

-- The slowest reader is not ahead of any online consumer.
pub min_active-le_online :
    (r : Ring) (c : ℕ)
    → c < r.consumer_capacity
    → (r.consumers c).state ≡ online
    → min_active_read_sequence r ≤ (r.consumers c).read_sequence
unfolding min_active_read_sequence
min_active-le_online r c hc on =
    ground (arith, scan_min-le_online r.consumer_capacity 0 none r c (omega arith) (omega arith) on)

-- It is as far as all of them are, and at the head when there are none.
pub le-min_active :
    (r : Ring) (b : ℕ)
    → b ≤ r.next_sequence
    → ((c : ℕ)
        → c < r.consumer_capacity
        → (r.consumers c).state ≡ online
        → b ≤ (r.consumers c).read_sequence)
    → b ≤ min_active_read_sequence r
unfolding min_active_read_sequence
le-min_active r b h all = ground (
  arith,
  scan_min-AtLeast r.consumer_capacity 0 none r b (λ c lo hi on. all c (omega arith) on) tt,
)

abbrev pub reclaimed_ring : ℕ → Ring → Ring
reclaimed_ring i r =
    finish_reclaim i ((r.slots i).state_sequence / 2 ^ 32)
      (store_control r i (pack_slot_control empty 0))

-- A slot is freed exactly when it is committed and every online consumer has passed it.
pub reclaim_outcome :
    (i : ℕ) (r : Ring)
    → ((try_reclaim_slot_if_safe i r ≡ (false, r))
        × ((r.slot_count ≤ i)
            ⊎ ((r.slots i).state_sequence % 2 ^ 32 ≢ 2)
            ⊎ (min_active_read_sequence r ≤ (r.slots i).state_sequence / 2 ^ 32)))
      ⊎ ((try_reclaim_slot_if_safe i r ≡ (true, reclaimed_ring i r))
          × (i < r.slot_count)
          × ((r.slots i).state_sequence % 2 ^ 32 ≡ 2)
          × ((r.slots i).state_sequence / 2 ^ 32 < min_active_read_sequence r))
unfolding try_reclaim_slot_if_safe
reclaim_outcome i r = ground arith

pub reclaimed_ring-IsSafe :
    (i : ℕ) (r : Ring)
    → IsSafe r
    → (r.slots i).state_sequence / 2 ^ 32 < min_active_read_sequence r
    → IsSafe (reclaimed_ring i r)
reclaimed_ring-IsSafe i r v passed = record {
  some_slots = v.some_slots;
  head_pos = v.head_pos;
  head_small = v.head_small;
  own = λ j hj occ. ground (arith, v.own j hj);
  shard = λ j hj occ. ground (arith, v.shard j hj);
  cursor = v.cursor;
  kept = λ c q hc on lo hi. ground (arith, v.kept c q hc on lo hi, min_active-le_online r c hc on);
}

pub try_reclaim-IsSafe : (i : ℕ) (r : Ring) → IsSafe r → IsSafe (try_reclaim_slot_if_safe i r).1
try_reclaim-IsSafe i r v = elim (reclaim_outcome i r) [
  | inl (e, why) ↦ rw e v
  | inr (e, hi, two, passed) ↦ rw e (reclaimed_ring-IsSafe i r v passed)
]

-- What freeing one slot keeps, the loop over all slots keeps.
module _ {ℓ} (P : Ring → Type ℓ)
    (keep : (i : ℕ) (r : Ring) → P r → P (try_reclaim_slot_if_safe i r).1) where
  pub reclaim_from-keep : (k i n : ℕ) (r : Ring) → P r → P (reclaim_from k i n r).1
  unfolding reclaim_from
  reclaim_from-keep zero i n r p = p
  reclaim_from-keep (suc k) i n r p =
      reclaim_from-keep k (i + 1) _ (try_reclaim_slot_if_safe i r).1 (keep i r p)

  pub reclaim-keep : (r : Ring) → P r → P (reclaim_committed_slots r).1
  unfolding reclaim_committed_slots
  reclaim-keep r p = reclaim_from-keep r.slot_count 0 0 r p

pub reclaim_committed_slots-IsSafe : (r : Ring) → IsSafe r → IsSafe (reclaim_committed_slots r).1
reclaim_committed_slots-IsSafe = reclaim-keep IsSafe try_reclaim-IsSafe
