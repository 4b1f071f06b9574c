-- ===== src/Ring/Tests.antt =====
-- The ring's theorems at concrete rings: two slots of four bytes, one consumer.
use mould_system_backend.Common.{
  ℕ, zero, suc, ℤ, pos, List, [], ◌∷◌, some, none, ◌+◌, ◌^◌, ◌≤◌, ◌≡◌, refl, inl, arith, update,
  read_bytes, write_bytes,
}
use mould_system_backend.Ring.Control.{
  committed, pack_slot_control, unpack_slot_state, unpack_slot_sequence, unpack-pack_slot_control,
}
use mould_system_backend.Ring.State.{Ring, RingSlotReservation, online}
use mould_system_backend.Ring.Slots.{
  reserve_publish_slot_ring_ordered, commit_slot, try_read_next_for_consumer,
}
use mould_system_backend.Ring.Consumers.{add_consumer_online, register_consumer}
use mould_system_backend.Ring.Metrics.{
  RingHealthMetrics, observe_health_metrics, set_consumer_notification_fd,
}
use mould_system_backend.Ring.Layout.{initialize, fresh_ring, compute_ring_layout_size_bytes}
use mould_system_backend.Ring.Publish.{
  MessageEnvelope, published, publish_committed_payload, after_reserve, write_and_commit,
  reserve_loop,
}
use mould_system_backend.Ring.Invariant.{IsSafe}
use mould_system_backend.Ring.Log.{Log, Stores}
use mould_system_backend.Ring.Waiting.{waited}
use mould_system_backend.Ring.Append.{Good, Appended, publish_appends}
use mould_system_backend.Ring.Delivery.{read_delivers, read_stuck_past_32_bits}
use mould_system_backend.Ring.History.{add, reserve, here, next, history-IsSafe, backlog-le_slots}
use mould_system_backend.Ring.Progress.{publish_succeeds}

abbrev eventfds : ℕ → ℤ
eventfds i = pos (10 + i)

-- `Initialize` of a mapping of 200 bytes.
abbrev start : Ring
start = record (fresh_ring 2 1 8) { notification_mappings = update (λ i. pos 0) 0 (pos 10) }

start_lem : initialize eventfds 200 2 1 8 ≡ some start
unfolding initialize compute_ring_layout_size_bytes set_consumer_notification_fd
start_lem = refl

history-IsSafe_example :
    IsSafe (reserve_publish_slot_ring_ordered 4 (add_consumer_online 7 0 start).1).1
unfolding compute_ring_layout_size_bytes add_consumer_online register_consumer
history-IsSafe_example = history-IsSafe eventfds 200 2 1 8 start_lem (omega arith) (
    next (next (here start) (add 7 0 start))
      (reserve 4 (add_consumer_online 7 0 start).1 (omega arith)))

-- The consumer has joined.
abbrev joined : Ring
joined = (add_consumer_online 7 0 start).1

joined-IsSafe : IsSafe joined
unfolding compute_ring_layout_size_bytes
joined-IsSafe =
    history-IsSafe eventfds 200 2 1 8 start_lem (omega arith) (next (here start) (add 7 0 start))

-- Nothing has been published.
abbrev empty_log : Log
empty_log q = []

joined-Good : Good empty_log joined
unfolding add_consumer_online register_consumer
joined-Good = record { safe = joined-IsSafe; small = omega arith; stores = λ i hi two. cc }

abbrev message : List ℕ
message = 5 ∷ 6 ∷ 7 ∷ []

abbrev envelope : MessageEnvelope
envelope = record { channel = "frames"; sequence = 1; delivery_id = 1; payload = message }

abbrev quiet : ℕ → Ring → Ring
quiet k r = r

abbrev sent : Ring
sent = (publish_committed_payload quiet 0 2 "frames" message joined).1

sent_lem :
    publish_committed_payload quiet 0 2 "frames" message joined
    ≡ (published envelope (observe_health_metrics joined) (observe_health_metrics sent), sent)
unfolding publish_committed_payload add_consumer_online register_consumer reserve_loop after_reserve
    write_and_commit reserve_publish_slot_ring_ordered commit_slot
sent_lem = refl

publish_appends_example :
    (n : ℕ) × Appended empty_log message envelope (waited quiet 0 n joined) sent
publish_appends_example =
    publish_appends quiet 0 2 "frames" message empty_log joined (λ k q g. g) joined-Good
      (omega arith) sent_lem

publish_succeeds_example :
    (env : MessageEnvelope) × (before : RingHealthMetrics) × (after : RingHealthMetrics)
    × (t : Ring) × (publish_committed_payload quiet 0 2 "frames" message joined
        ≡ (published env before after, t))
    × (env.sequence ≡ 1)
    × (env.payload ≡ message)
unfolding add_consumer_online register_consumer
publish_succeeds_example =
    publish_succeeds quiet 0 0 "frames" message joined joined-IsSafe (omega arith) (omega arith)
      (omega arith) (omega arith) refl (λ c hc on. ground arith) (inl refl)

sent-IsSafe : IsSafe sent
sent-IsSafe =
    (publish_appends quiet 0 2 "frames" message empty_log joined (λ k q g. g) joined-Good
      (omega arith) sent_lem).1.safe

sent-Stores : Stores sent (update (λ q. []) 1 message)
unfolding publish_committed_payload add_consumer_online register_consumer reserve_loop after_reserve
    write_and_commit reserve_publish_slot_ring_ordered commit_slot write_bytes read_bytes
sent-Stores zero hi two = refl
sent-Stores (suc zero) hi two = cc
sent-Stores (suc (suc i)) hi two = absurd (omega arith)

read_delivers_example :
    (out : RingSlotReservation) × (try_read_next_for_consumer 0 sent ≡ some (out, 0))
    × (out.sequence ≡ 1)
    × (read_bytes sent.payload_region out.payload_offset out.payload_size ≡ message)
unfolding publish_committed_payload add_consumer_online register_consumer reserve_loop after_reserve
    write_and_commit reserve_publish_slot_ring_ordered commit_slot
read_delivers_example =
    read_delivers 0 sent (update (λ q. []) 1 message) sent-IsSafe sent-Stores (omega arith) refl
      (omega arith) refl

backlog-le_slots_example : joined.next_sequence ≤ (joined.consumers 0).read_sequence + 2
unfolding compute_ring_layout_size_bytes add_consumer_online register_consumer
backlog-le_slots_example =
    backlog-le_slots eventfds 200 2 1 8 start_lem (omega arith) (next (here start) (add 7 0 start))
      0 (omega arith) refl

-- A ring that has handed out 2 ^ 32 sequences: its consumer has come to the last of them.
abbrev worn : Ring
worn = record start {
  consumers =
      λ c. record { read_sequence = 2 ^ 32; state = online; owner_pid = 7; owner_start_epoch = 2 };
}

read_stuck_past_32_bits_example : try_read_next_for_consumer 0 worn ≡ none
read_stuck_past_32_bits_example = read_stuck_past_32_bits 0 worn (omega arith) (omega arith)

unpack-pack_slot_control_example :
    (unpack_slot_state (pack_slot_control committed 77) ≡ 2)
    × (unpack_slot_sequence (pack_slot_control committed 77) ≡ 77)
unpack-pack_slot_control_example = unpack-pack_slot_control committed 77
