-- ===== src/Ring/Waiting.antt =====
-- The waiting loop of `PublishCommittedPayload`: what its rounds make of the ring, and the ring in
-- which it reserves.
use mould_system_backend.Common.{
  ℕ, zero, suc, none, some, ◌+◌, ◌≡◌, inl, inr, refl, sym, ◌∙◌, arith,
}
use mould_system_backend.Ring.State.{Ring, RingSlotReservation}
use mould_system_backend.Ring.Slots.{slot_of, reserve_publish_slot_ring_ordered}
use mould_system_backend.Ring.Reclaim.{reclaim_committed_slots}
use mould_system_backend.Ring.Publish.{reserve_loop}
use mould_system_backend.Ring.Safety.Reserve.{
  reserved_ring, reservation_of, reserve_outcome, CanReserve,
}

module _ (others : ℕ → Ring → Ring) (size : ℕ) where
  pub reserve_loop_fail :
      (k fuel : ℕ) (r : Ring)
      → reserve_publish_slot_ring_ordered size r ≡ (none, r)
      → reserve_loop others size k (suc fuel) r
        ≡ reserve_loop others size (k + 1) fuel (others k (reclaim_committed_slots r).1)
  unfolding reserve_loop
  reserve_loop_fail k fuel r e = ground (arith, e)

  pub reserve_loop_success :
      (k fuel : ℕ) (r : Ring) {x : RingSlotReservation × ℕ} {t : Ring}
      → reserve_publish_slot_ring_ordered size r ≡ (some x, t)
      → reserve_loop others size k (suc fuel) r ≡ (some x, t)
  unfolding reserve_loop
  reserve_loop_success k fuel r e = ground (arith, e)

-- The ring after so many failed rounds: each reclaims and yields to the others.
unfoldable pub waited : (ℕ → Ring → Ring) → ℕ → ℕ → Ring → Ring
waited others k zero r = r
waited others k (suc n) r = waited others (k + 1) n (others k (reclaim_committed_slots r).1)

-- The loop reserves after some failed rounds, in a ring that satisfies what reclaiming and the others
-- keep.
module _ {ℓ} (P : Ring → Type ℓ) (others : ℕ → Ring → Ring) (size : ℕ)
    (reclaim_keeps : (r : Ring) → P r → P (reclaim_committed_slots r).1)
    (others_keep : (k : ℕ) (r : Ring) → P r → P (others k r)) where
  pub reserve_loop_outcome :
      (k fuel : ℕ) (r : Ring) {x : RingSlotReservation × ℕ} {t : Ring}
      → P r
      → reserve_loop others size k fuel r ≡ (some x, t)
      → (n : ℕ) × (q : Ring) × (q ≡ waited others k n r)
        × P q
        × CanReserve size q
        × (x ≡ (reservation_of size q, slot_of q q.next_sequence))
        × (t ≡ reserved_ring size q)
  unfolding reserve_loop waited
  reserve_loop_outcome k zero r p h = cc
  reserve_loop_outcome k (suc fuel) r {x} {t} p h = elim (reserve_outcome size r) [
    | inl e ↦
        let (n, q, eq, p', g, ex, et) =
          reserve_loop_outcome (k + 1) fuel (others k (reclaim_committed_slots r).1)
            (others_keep k (reclaim_committed_slots r).1 (reclaim_keeps r p))
            (sym (reserve_loop_fail others size k fuel r e) ∙ h) in
        (suc n, q, eq, p', g, ex, et)
    | inr (g, e) ↦
        let f = sym (reserve_loop_success others size k fuel r e) ∙ h in
        (0, r, refl, p, g, cc (f), cc (f))
  ]
