-- ===== src/Ring/Consumers.antt =====
-- common/comm/src/shm_ring_buffer.cpp: membership of the consumers and their cursors. The caller's
-- process id and the process-wide count of cursor advances are arguments.
use mould_system_backend.Common.{
  ℕ, zero, suc, Bool, true, false, Option, none, some, ◌+◌, ◌%◌, ◌||◌, ◌&&◌, not, ◌==◌, ltb,
  if◌then◌else◌, add_u64, u32_mod,
}
use mould_system_backend.Ring.State.{
  Ring, ConsumerState, offline, online, registering, is_online, with_header, store_consumer,
  store_read_sequence, cas_consumer_state,
}
use mould_system_backend.Ring.Reclaim.{reclaim_committed_slots, try_reclaim_slot_if_safe}

abbrev pub fallback_reclaim_interval : ℕ
fallback_reclaim_interval = 64

-- After the cursor is online: a new generation, and the owner's identity.
abbrev pub announce : ℕ → ℕ → Ring → Ring
announce pid c r =
    let generation = add_u64 r.membership_generation 1 in
    with_header
      (store_consumer r c
        (record (r.consumers c) { owner_pid = pid; owner_start_epoch = generation % u32_mod }))
      (record r.header {
        membership_generation = generation;
        membership_change_count = add_u64 r.membership_change_count 1;
        consumer_online_events = add_u64 r.consumer_online_events 1;
      })

-- The publication of `kOnline` failed: the cursor is cleared and the slot given back.
abbrev pub withdraw : ℕ → Ring → Ring
withdraw c r = (cas_consumer_state (store_read_sequence r c 0) c registering offline).1

unfoldable pub register_consumer : ℕ → ℕ → ℕ → Ring → Bool × Ring
register_consumer pid c initial r =
    let (claimed, r1) = cas_consumer_state r c offline registering in
    let (published, r2) =
      cas_consumer_state (store_read_sequence r1 c initial) c registering online in
    if initial == 0 || not (ltb c r.consumer_capacity)
    then (false, r)
    else if not claimed
    then (false, r1)
    else if published
    then (true, announce pid c r2)
    else (false, withdraw c r2)

-- The fields that leaving clears, and the counters that it moves.
abbrev pub take_offline : ℕ → Ring → Ring
take_offline c r =
    with_header
      (store_consumer r c
        (record { read_sequence = 0; state = offline; owner_pid = 0; owner_start_epoch = 0 }))
      (record r.header {
        membership_generation = add_u64 r.membership_generation 1;
        membership_change_count = add_u64 r.membership_change_count 1;
        consumer_offline_events = add_u64 r.consumer_offline_events 1;
      })

abbrev pub is_member : ConsumerState → Bool
is_member offline = false
is_member _ = true

-- A consumer that was offline already stays as it was.
unfoldable pub unregister_consumer : ℕ → Ring → Bool × Ring
unregister_consumer c r =
    if not (ltb c r.consumer_capacity)
    then (false, r)
    else if is_member (r.consumers c).state
    then (true, (reclaim_committed_slots (take_offline c r)).1)
    else (false, store_consumer r c (record (r.consumers c) { state = offline }))

unfoldable pub add_consumer_online : ℕ → ℕ → Ring → Bool × Ring
add_consumer_online pid c r =
    if not (ltb c r.consumer_capacity)
    then (false, r)
    else register_consumer pid c (if r.next_sequence == 0 then 1 else r.next_sequence) r

unfoldable pub remove_consumer_online : ℕ → Ring → Bool × Ring
remove_consumer_online = unregister_consumer

-- One pass over the table: the first slot that can be taken.
unfoldable pub acquire_pass : ℕ → ℕ → ℕ → Ring → Option ℕ × Ring
acquire_pass pid zero i r = (none, r)
acquire_pass pid (suc k) i r =
    let (taken, r1) = add_consumer_online pid i r in
    let rest = acquire_pass pid k (i + 1) r1 in if taken then (some i, r1) else rest

-- Sixteen passes at most.
unfoldable pub acquire_rounds : ℕ → ℕ → Ring → Option ℕ × Ring
acquire_rounds pid zero r = (none, r)
acquire_rounds pid (suc n) r =
    let (found, r1) = acquire_pass pid r.consumer_capacity 0 r in
    elim found [ some i ↦ (some i, r1) | none ↦ acquire_rounds pid n r1 ]

unfoldable pub try_acquire_consumer_online_slot : ℕ → Ring → Option ℕ × Ring
try_acquire_consumer_online_slot pid r =
    if r.consumer_capacity == 0 then (none, r) else acquire_rounds pid 16 r

-- Every 64th advance of the process also reclaims. The result is the answer, the new count of
-- advances and the ring; a compare-exchange on the cursor meets the value just loaded.
unfoldable pub advance_consumer_cursor : ℕ → ℕ → ℕ → Ring → Bool × ℕ × Ring
advance_consumer_cursor advances c next r =
    let current = (r.consumers c).read_sequence in
    let moved = store_read_sequence r c next in
    let count = add_u64 advances 1 in
    if next == 0
      || not (ltb c r.consumer_capacity)
      || not (is_online (r.consumers c).state)
      || ltb next current
    then (false, advances, r)
    else if current == next
    then (true, advances, r)
    else (
      true,
      count,
      if count % fallback_reclaim_interval == 0 then (reclaim_committed_slots moved).1 else moved,
    )

unfoldable pub complete_consumer_slot : ℕ → ℕ → ℕ → ℕ → Ring → Bool × ℕ × Ring
complete_consumer_slot advances c slot_index next r =
    let (done, count, r1) = advance_consumer_cursor advances c next r in
    if done then (true, count, (try_reclaim_slot_if_safe slot_index r1).1) else (false, count, r1)

unfoldable pub load_consumer_cursor : ℕ → Ring → Option ℕ
load_consumer_cursor c r =
    if not (ltb c r.consumer_capacity) || not (is_online (r.consumers c).state)
    then none
    else some (r.consumers c).read_sequence

unfoldable pub consumer_owner_matches : ℕ → ℕ → ℕ → Ring → Bool
consumer_owner_matches c pid epoch r =
    if not (ltb c r.consumer_capacity) || not (is_online (r.consumers c).state)
    then false
    else (r.consumers c).owner_pid == pid && (r.consumers c).owner_start_epoch == epoch

unfoldable pub take_consumer_offline_if_owner : ℕ → ℕ → ℕ → Ring → Bool × Ring
take_consumer_offline_if_owner c pid epoch r =
    if consumer_owner_matches c pid epoch r then unregister_consumer c r else (false, r)
