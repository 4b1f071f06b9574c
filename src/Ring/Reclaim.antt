-- ===== src/Ring/Reclaim.antt =====
-- common/comm/src/shm_ring_buffer.cpp: the slowest reader, and the slots that it has passed.
use mould_system_backend.Common.{
  ℕ, zero, suc, Bool, true, false, Option, none, some, ◌+◌, ◌||◌, not, ◌==◌, ltb, leb,
  if◌then◌else◌, add_u64, sub_u64,
}
use mould_system_backend.Ring.Control.{
  empty, committed, slot_state_code, pack_slot_control, unpack_slot_state, unpack_slot_sequence,
}
use mould_system_backend.Ring.State.{
  Ring, is_online, with_header, store_slot, cas_control, is_slot_index_valid,
}

-- `!min.has_value() || candidate < *min` takes the candidate.
abbrev pub lower : Option ℕ → ℕ → Option ℕ
lower none candidate = some candidate
lower (some m) candidate = if ltb candidate m then some candidate else some m

-- The loop over the consumer table, with the rounds left and the index.
unfoldable pub scan_min : ℕ → ℕ → Option ℕ → Ring → Option ℕ
scan_min zero i m r = m
scan_min (suc k) i m r =
    scan_min k (i + 1)
      (if is_online (r.consumers i).state then lower m (r.consumers i).read_sequence else m) r

-- With nobody online the ring's head stands for the slowest reader.
abbrev pub or_head : Option ℕ → Ring → ℕ
or_head none r = if r.next_sequence == 0 then 1 else r.next_sequence
or_head (some m) r = m

-- No membership change falls into the scan, so its first round is the last.
unfoldable pub min_active_read_sequence : Ring → ℕ
unfolding scan_min
min_active_read_sequence r = or_head (scan_min r.consumer_capacity 0 none r) r

-- What follows a successful reclaim: the claim flag, two counters and the watermark.
abbrev pub finish_reclaim : ℕ → ℕ → Ring → Ring
finish_reclaim i sequence r =
    with_header (store_slot r i (record (r.slots i) { claimed = 0 })) (record r.header {
      reclaim_count = add_u64 r.reclaim_count 1;
      committed_slots = sub_u64 r.committed_slots 1;
      reclaim_sequence = if ltb r.reclaim_sequence sequence then sequence else r.reclaim_sequence;
    })

unfoldable pub try_reclaim_slot_if_safe : ℕ → Ring → Bool × Ring
unfolding is_slot_index_valid
try_reclaim_slot_if_safe i r =
    let control = (r.slots i).state_sequence in
    let sequence = unpack_slot_sequence control in
    let (won, r1) = cas_control r i control (pack_slot_control empty 0) in
    if not (is_slot_index_valid i r)
      || not (unpack_slot_state control == slot_state_code committed)
      || leb (min_active_read_sequence r) sequence
      || not ((r.slots i).state_sequence == control)
    then (false, r)
    else if won
    then (true, finish_reclaim i sequence r1)
    else (false, r1)

unfoldable pub reclaim_from : ℕ → ℕ → ℕ → Ring → ℕ × Ring
reclaim_from zero i reclaimed r = (reclaimed, r)
reclaim_from (suc k) i reclaimed r =
    let (freed, r1) = try_reclaim_slot_if_safe i r in
    reclaim_from k (i + 1) (if freed then reclaimed + 1 else reclaimed) r1

unfoldable pub reclaim_committed_slots : Ring → ℕ × Ring
unfolding reclaim_from
reclaim_committed_slots r = reclaim_from r.slot_count 0 0 r
