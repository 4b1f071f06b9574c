-- ===== src/ControlPlane/Tests.antt =====
-- A ring with the consumers of two processes, and a channel without a ring.
use mould_system_backend.Common.{Option, none, some, List, [], ◌∷◌, ◌≡◌, refl}
use mould_system_backend.Ring.State.{Ring}
use mould_system_backend.Ring.Layout.{fresh_ring, compute_ring_layout_size_bytes}
use mould_system_backend.Ring.Reclaim.{
  reclaim_committed_slots, reclaim_from, try_reclaim_slot_if_safe, min_active_read_sequence,
}
use mould_system_backend.Ring.Consumers.{
  add_consumer_online, register_consumer, unregister_consumer, consumer_owner_matches,
  take_consumer_offline_if_owner,
}
use mould_system_backend.ControlPlane.{
  take_one, take_from, take_all_consumers_offline_for_process_pid,
}
use mould_system_backend.ControlPlane.Offline.{AreTaken, take_all_offline-AreTaken}

abbrev two_consumers : Ring
two_consumers = (add_consumer_online 9 1 (add_consumer_online 7 0 (fresh_ring 2 2 8)).1).1

abbrev rings : List (Option Ring)
rings = some two_consumers ∷ none ∷ []

take_all_offline-AreTaken_example :
    AreTaken 7 rings (take_all_consumers_offline_for_process_pid 7 0 rings).1
take_all_offline-AreTaken_example = take_all_offline-AreTaken 7 0 rings

one_taken : (take_all_consumers_offline_for_process_pid 7 0 rings).0 ≡ 1
unfolding take_all_consumers_offline_for_process_pid take_from take_one
    take_consumer_offline_if_owner consumer_owner_matches unregister_consumer add_consumer_online
    register_consumer reclaim_committed_slots reclaim_from try_reclaim_slot_if_safe
    min_active_read_sequence compute_ring_layout_size_bytes
one_taken = refl
