-- ===== src/Ring/Append.antt =====
-- Publishing against the log: `PublishCommittedPayload` appends one message.
use Prim.Native.String.{String}
use mould_system_backend.Common.{
  ℕ, List, Option, none, some, ◌+◌, ◌%◌, ◌^◌, ◌<◌, ◌≡◌, ◌≢◌, ◌⊎◌, inl, inr, refl, sym, ap, subst,
  ◌∙◌, arith, add_u64, u32_mod, length, update, ltb, if◌then◌else◌,
}
use mould_system_backend.Ring.Control.{committed, pack_slot_control}
use mould_system_backend.Ring.State.{Ring, RingSlotReservation}
use mould_system_backend.Ring.Slots.{slot_of}
use mould_system_backend.Ring.Reclaim.{reclaim_committed_slots, try_reclaim_slot_if_safe}
use mould_system_backend.Ring.Metrics.{
  RingHealthMetrics, observe_health_metrics, record_producer_block_duration,
}
use mould_system_backend.Ring.Waiting.{waited, reserve_loop_outcome}
use mould_system_backend.Ring.Publish.{
  MessageEnvelope, PublishResult, published, reserve_loop, write_and_commit, after_reserve,
  publish_committed_payload,
}
use mould_system_backend.Ring.Invariant.{IsSafe}
use mould_system_backend.Ring.Safety.Reserve.{
  reserved_ring, reservation_of, commit_outcome, CanReserve,
}
use mould_system_backend.Ring.Safety.Reclaim.{
  reclaim_outcome, reclaimed_ring, reclaimed_ring-IsSafe, reclaim-keep,
}
use mould_system_backend.Ring.Log.{
  Log, Stores, written_ring, published_ring, published-Stores, published-IsSafe, published_next,
  published_slot, published_slot_ne,
}

-- The producer's blocking time is recorded between the reservation and the copy.
abbrev pub with_blocked : ℕ → Ring → Ring
with_blocked n r = record r { header = record r.header { producer_block_total_ns = n } }

abbrev pub blocked_total : ℕ → Ring → ℕ
blocked_total elapsed r =
    if ltb 0 elapsed then add_u64 r.producer_block_total_ns elapsed else r.producer_block_total_ns

timed_lem :
    (elapsed : ℕ) (r : Ring)
    → (if ltb 0 elapsed then record_producer_block_duration elapsed r else r)
      ≡ with_blocked (blocked_total elapsed r) r
unfolding record_producer_block_duration
timed_lem elapsed r = ground arith

with_blocked-IsSafe : (n : ℕ) (r : Ring) → IsSafe r → IsSafe (with_blocked n r)
with_blocked-IsSafe n r v = record {
  some_slots = v.some_slots;
  head_pos = v.head_pos;
  head_small = v.head_small;
  own = v.own;
  shard = v.shard;
  cursor = v.cursor;
  kept = v.kept;
}

-- With the slot reserved, the copy and the commit always succeed.
write_and_commit_lem :
    (channel : String) (payload : List ℕ) (before : RingHealthMetrics) (n : ℕ) (q : Ring)
    → IsSafe q
    → q.next_sequence < 2 ^ 32
    → write_and_commit channel payload before
        (reservation_of (length payload) q)
        (slot_of q q.next_sequence)
        (with_blocked n (reserved_ring (length payload) q))
      ≡ (
        published
            (record {
              channel = channel;
              sequence = q.next_sequence;
              delivery_id = q.next_sequence;
              payload = payload;
            })
            before
            (observe_health_metrics (with_blocked n (published_ring payload q))),
        with_blocked n (published_ring payload q),
      )
unfolding write_and_commit published_ring
write_and_commit_lem channel payload before n q v small = ground (
  arith,
  v.some_slots,
  commit_outcome (slot_of q q.next_sequence) (with_blocked n (written_ring payload q)),
)

-- The ring stores this log, and has room for another sequence in 32 bits.
pub record Good (log : Log) (r : Ring) : Type 0 where
  pub safe : IsSafe r
  pub small : r.next_sequence < 2 ^ 32
  pub stores : Stores r log

reclaimed_ring-Stores :
    (i : ℕ) (r : Ring) (log : Log) → Stores r log → Stores (reclaimed_ring i r) log
reclaimed_ring-Stores i r log st j hj two = ground (arith, st j hj)

try_reclaim-Good :
    (log : Log) (i : ℕ) (r : Ring) → Good log r → Good log (try_reclaim_slot_if_safe i r).1
try_reclaim-Good log i r g = elim (reclaim_outcome i r) [
  | inl (e, why) ↦ rw e g
  | inr (e, hi, two, passed) ↦ rw e (record {
    safe = reclaimed_ring-IsSafe i r g.safe passed;
    small = g.small;
    stores = reclaimed_ring-Stores i r log g.stores;
  })
]

pub reclaim-Good : (log : Log) (r : Ring) → Good log r → Good log (reclaim_committed_slots r).1
reclaim-Good log = reclaim-keep (Good log) (try_reclaim-Good log)

-- What a publication has done to the ring `q` in which it found its slot.
pub record Appended (log : Log) (payload : List ℕ) (env : MessageEnvelope) (q t : Ring)
    : Type 0 where
  pub sequence : env.sequence ≡ q.next_sequence
  pub content : env.payload ≡ payload
  pub next : t.next_sequence ≡ q.next_sequence + 1
  pub safe : IsSafe t
  pub stores : Stores t (update log q.next_sequence payload)
  pub visible :
      (t.slots (slot_of q q.next_sequence)).state_sequence
      ≡ pack_slot_control committed q.next_sequence
  pub other_slots : (i : ℕ) → i ≢ slot_of q q.next_sequence → t.slots i ≡ q.slots i
  pub consumers : t.consumers ≡ q.consumers

-- A reserved slot that is written and committed appends the message.
finished-Appended :
    (channel : String) (payload : List ℕ) (n : ℕ) (log : Log) (q : Ring)
    → Good log q
    → CanReserve (length payload) q
    → Appended log payload
        (record {
          channel = channel;
          sequence = q.next_sequence;
          delivery_id = q.next_sequence;
          payload = payload;
        })
        q
        (with_blocked n (published_ring payload q))
unfolding published_ring
finished-Appended channel payload n log q good g = record {
  sequence = refl;
  content = refl;
  next = published_next payload q good.small;
  safe =
      with_blocked-IsSafe n (published_ring payload q)
        (published-IsSafe payload q good.safe g good.small);
  stores = published-Stores payload q log good.safe good.stores g good.small;
  visible = (published_slot payload q log good.safe good.stores g good.small).0;
  other_slots = published_slot_ne payload q log good.safe good.stores g good.small;
  consumers = refl;
}

loop_cases :
    (o : Option (RingSlotReservation × ℕ) × Ring)
    → ((t : Ring) × (o ≡ (none, t)))
      ⊎ ((x : RingSlotReservation) × (i : ℕ) × (t : Ring) × (o ≡ (some (x, i), t)))
loop_cases (none, t) = inl (t, refl)
loop_cases (some (x, i), t) = inr (x, i, t, refl)

-- A success passed the checks, and came out of the loop and the commit.
published_through :
    (others : ℕ → Ring → Ring) (elapsed fuel : ℕ) (channel : String) (payload : List ℕ) (r : Ring)
    {env : MessageEnvelope} {before after : RingHealthMetrics} {t : Ring}
    → length payload < 2 ^ 32
    → publish_committed_payload others elapsed fuel channel payload r
      ≡ (published env before after, t)
    → after_reserve channel payload elapsed
        (observe_health_metrics r)
        (reserve_loop others (length payload) 0 fuel r)
      ≡ (published env before after, t)
unfolding publish_committed_payload
published_through others elapsed fuel channel payload r small h =
    let e : length payload % u32_mod ≡ length payload = omega arith in ground (arith, e)

pub after_reserve_lem :
    (channel : String) (payload : List ℕ) (elapsed : ℕ) (before : RingHealthMetrics) (q : Ring)
    → IsSafe q
    → q.next_sequence < 2 ^ 32
    → (let t =
          with_blocked
            (blocked_total elapsed (reserved_ring (length payload) q))
            (published_ring payload q) in
        after_reserve channel payload elapsed before (
          some (reservation_of (length payload) q, slot_of q q.next_sequence),
          reserved_ring (length payload) q,
        )
        ≡ (
          published
              (record {
                channel = channel;
                sequence = q.next_sequence;
                delivery_id = q.next_sequence;
                payload = payload;
              })
              before
              (observe_health_metrics t),
          t,
        ))
unfolding after_reserve
after_reserve_lem channel payload elapsed before q v small =
    rw (timed_lem elapsed (reserved_ring (length payload) q))
      (write_and_commit_lem channel payload before _ q v small)

after_reserve_waiting :
    (channel : String) (payload : List ℕ) (elapsed : ℕ) (m : RingHealthMetrics) (t' : Ring)
    {env : MessageEnvelope} {before after : RingHealthMetrics} {t : Ring}
    → ¬ (after_reserve channel payload elapsed m (none, t') ≡ (published env before after, t))
unfolding after_reserve
after_reserve_waiting channel payload elapsed m t' h = cc

-- Let the ring store a log, and let the other processes leave, in each yield, a ring that stores it,
-- keeps the invariant and has handed out fewer than 2 ^ 32 sequences. Whenever
-- `PublishCommittedPayload` reports success for a payload below 2 ^ 32 bytes, then in the ring that
-- some rounds of reclaiming and yielding have made of the first it has put exactly the payload under
-- the next sequence and committed it: the ring stores the log with this message, every other slot and
-- every cursor is as it was in that ring, and the invariant holds.
pub publish_appends :
    (others : ℕ → Ring → Ring) (elapsed fuel : ℕ) (channel : String) (payload : List ℕ) (log : Log)
    (r : Ring) {env : MessageEnvelope} {before after : RingHealthMetrics} {t : Ring}
    → ((k : ℕ) (q : Ring) → Good log q → Good log (others k q))
    → Good log r
    → length payload < 2 ^ 32
    → publish_committed_payload others elapsed fuel channel payload r
      ≡ (published env before after, t)
    → (n : ℕ) × Appended log payload env (waited others 0 n r) t
publish_appends others elapsed fuel channel payload log r {env} {before} {after} {t} keep good small
      h =
    let through = published_through others elapsed fuel channel payload r small h in
    elim (loop_cases (reserve_loop others (length payload) 0 fuel r)) [
      | inl (t', e) ↦ absurd (after_reserve_waiting channel payload elapsed _ t' (rw e at through))
      | inr (x, i, t', e) ↦
          let (n, q, eq, g, can, ex, et) =
            reserve_loop_outcome (Good log) others (length payload) (reclaim-Good log) keep 0 fuel r
              good e in
          (
            n,
            subst (λ (q' : Ring). Appended log payload env q' t) eq
                (appended q g can (
                  sym (
                    after_reserve_lem channel payload elapsed (observe_health_metrics r) q g.safe
                      g.small)
                  ∙ ap (after_reserve channel payload elapsed (observe_health_metrics r))
                      (sym (cc (e, ex, et)))
                  ∙ through)),
          )
    ]
  where
    appended :
        (q : Ring)
        → Good log q
        → CanReserve (length payload) q
        → (let u =
              with_blocked
                (blocked_total elapsed (reserved_ring (length payload) q))
                (published_ring payload q) in
            ◌≡◌ {A = PublishResult × Ring}
              (
                published
                    (record {
                      channel = channel;
                      sequence = q.next_sequence;
                      delivery_id = q.next_sequence;
                      payload = payload;
                    })
                    (observe_health_metrics r)
                    (observe_health_metrics u),
                u,
              )
              (published env before after, t))
        → Appended log payload env q t
    appended q g can e =
        subst (λ (o : MessageEnvelope × Ring). Appended log payload o.0 q o.1) (cc (e))
          (finished-Appended channel payload
            (blocked_total elapsed (reserved_ring (length payload) q)) log q g can)
