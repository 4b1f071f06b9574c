-- ===== src/ControlPlane.antt =====
-- common/comm/src/shm_bus_control_plane.cpp: taking the consumers of a dead process offline. Attaching
-- to a channel's ring is the system's; a channel of the topology is given by its ring, if there is one.
pub mod Offline
mod Tests
use mould_system_backend.Common.{
  ℕ, zero, suc, Bool, true, false, ◌&&◌, Option, none, some, List, [], ◌∷◌, ◌+◌, ◌==◌,
  if◌then◌else◌,
}
use mould_system_backend.Ring.State.{Ring, is_online}
use mould_system_backend.Ring.Reclaim.{reclaim_committed_slots}
use mould_system_backend.Ring.Consumers.{take_consumer_offline_if_owner}

-- The consumer is online and the process owns it.
abbrev pub is_owned : ℕ → ℕ → Ring → Bool
is_owned pid i r = is_online (r.consumers i).state && (r.consumers i).owner_pid == pid

-- One consumer of the table: whether it was taken offline.
unfoldable pub take_one : ℕ → ℕ → Ring → Bool × Ring
unfolding take_consumer_offline_if_owner reclaim_committed_slots
take_one pid i r =
    let (taken, r1) = take_consumer_offline_if_owner i pid (r.consumers i).owner_start_epoch r in
    if is_owned pid i r
    then (if taken then (true, (reclaim_committed_slots r1).1) else (false, r1))
    else (false, r)

-- The loop over the table of one ring.
unfoldable pub take_from : ℕ → ℕ → ℕ → ℕ → Ring → ℕ × Ring
unfolding take_one
take_from pid zero i count r = (count, r)
take_from pid (suc k) i count r =
    let (taken, r1) = take_one pid i r in
    take_from pid k (i + 1) (if taken then count + 1 else count) r1

-- The loop over the channels.
unfoldable pub take_all_consumers_offline_for_process_pid :
    ℕ → ℕ → List (Option Ring) → ℕ × List (Option Ring)
unfolding take_from
take_all_consumers_offline_for_process_pid pid count [] = (count, [])
take_all_consumers_offline_for_process_pid pid count (none ∷ rest) =
    let (n, others) = take_all_consumers_offline_for_process_pid pid count rest in
    (n, none ∷ others)
take_all_consumers_offline_for_process_pid pid count (some r ∷ rest) =
    let (m, r1) = take_from pid r.consumer_capacity 0 count r in
    let (n, others) = take_all_consumers_offline_for_process_pid pid m rest in (n, some r1 ∷ others)
