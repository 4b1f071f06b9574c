-- ===== src/Launch/Tests.antt =====
-- A module that reports, one that sends a wrong version, and a timeout that is too long.
use mould_system_backend.Common.{
  ℕ, ℤ, pos, negsuc, List, [], ◌∷◌, ◌≡◌, ◌↔◌, refl, arith, done, refused,
}
use mould_system_backend.Launch.ReadyPipe.{
  send_ready, to_int, wait_ready, invalid_payload, IsPositive, wait_ready_iff,
}

abbrev one_event : ℤ → ℤ
one_event timeout = pos 1

abbrev ready_bytes : List ℕ
ready_bytes = 76 ∷ 85 ∷ 79 ∷ 77 ∷ 1 ∷ 0 ∷ 1 ∷ 0 ∷ []

wait_ready_iff_example :
    (wait_ready one_event ready_bytes (pos 3) (pos 500) ≡ done tt)
    ↔ (IsPositive (one_event (to_int 500)) × (send_ready (pos 3) (pos 8) ≡ done ready_bytes))
wait_ready_iff_example = wait_ready_iff one_event ready_bytes 3 500 (
  omega arith,
  (
    omega arith,
    (omega arith, (omega arith, (omega arith, (omega arith, (omega arith, (omega arith, tt)))))),
  ),
)

second_version :
    wait_ready one_event (76 ∷ 85 ∷ 79 ∷ 77 ∷ 2 ∷ 0 ∷ 1 ∷ 0 ∷ []) (pos 3) (pos 500)
    ≡ refused invalid_payload
unfolding wait_ready
second_version = refl

endless_wait : to_int 2147483648 ≡ negsuc 2147483647
endless_wait = refl
