-- ===== src/Config/Topology/Repeats.antt =====
-- No name stands twice among the producers or the consumers of a channel: `MergeModule` looks for the
-- name before it adds it, and sorting adds none.
use mould_system_backend.Common.{
  Bool, false, ◌||◌, Bytes, bytes_eq, bytes_eq-sym, List, [], ◌∷◌, ◌++◌, ◌≡◌, refl, sym, ap, arith,
  mem_bytes, Dict, find, done, >>=-done, Bool-cases, inl, inr,
}
use mould_system_backend.Config.Topology.{
  ModuleChannelConfig, ChannelTopologyEntry, ChannelTopologyIndex,
}
use mould_system_backend.Config.Topology.Build.{
  entry_of, add_name, add_producer, add_consumer, merge_endpoints, merge_module, merge_modules,
  sort_names, insert_name,
}
use mould_system_backend.Config.Topology.Merge.{
  has-merge_endpoints, any_endpoint-constant, mem_bytes-snoc, index_or,
}

-- Some name stands twice in the list.
abbrev pub repeats : List Bytes → Bool
repeats [] = false
repeats (n ∷ ns) = mem_bytes n ns || repeats ns

repeats-snoc :
    (n : Bytes) (ns : List Bytes) → repeats (ns ++ n ∷ []) ≡ (repeats ns || mem_bytes n ns)
repeats-snoc n [] = refl
repeats-snoc n (m ∷ ms) = ground (arith, repeats-snoc n ms, mem_bytes-snoc m n ms, bytes_eq-sym n m)

repeats-add_name : (n : Bytes) (ns : List Bytes) → repeats (add_name n ns) ≡ repeats ns
repeats-add_name n ns = elim (Bool-cases (mem_bytes n ns)) [
  | inl e ↦ rw e refl
  | inr e ↦ rw (e, repeats-snoc n ns, e) (ground arith)
]

mem_bytes-insert_name :
    (x n : Bytes) (ns : List Bytes)
    → mem_bytes x (insert_name n ns) ≡ (bytes_eq n x || mem_bytes x ns)
unfolding insert_name
mem_bytes-insert_name x n [] = refl
mem_bytes-insert_name x n (m ∷ ms) = ground (arith, mem_bytes-insert_name x n ms)

pub mem_bytes-sort_names :
    (x : Bytes) (ns : List Bytes) → mem_bytes x (sort_names ns) ≡ mem_bytes x ns
unfolding sort_names
mem_bytes-sort_names x [] = refl
mem_bytes-sort_names x (n ∷ ns) =
    rw (mem_bytes-insert_name x n (sort_names ns), mem_bytes-sort_names x ns) refl

repeats-insert_name :
    (n : Bytes) (ns : List Bytes) → repeats (insert_name n ns) ≡ (mem_bytes n ns || repeats ns)
unfolding insert_name
repeats-insert_name n [] = refl
repeats-insert_name n (m ∷ ms) =
    ground (arith, repeats-insert_name n ms, mem_bytes-insert_name m n ms, bytes_eq-sym n m)

pub repeats-sort_names : (ns : List Bytes) → repeats (sort_names ns) ≡ repeats ns
unfolding sort_names
repeats-sort_names [] = refl
repeats-sort_names (n ∷ ns) =
    rw (repeats-insert_name n (sort_names ns), mem_bytes-sort_names n ns, repeats-sort_names ns)
      refl

-- A test that neither a producer nor a consumer that is added changes stays over the whole merge.
module _ (has : ChannelTopologyEntry → Bool)
    (has-channel : (e : ChannelTopologyEntry) (c : Bytes) → has (record e { channel = c }) ≡ has e)
    (has-producer : (name : Bytes) (e : ChannelTopologyEntry) (p : Dict Bytes)
      → has (add_producer name (record e { params = p })) ≡ has e)
    (has-consumer : (name : Bytes) (e : ChannelTopologyEntry) (p : Dict Bytes)
      → has (add_consumer name (record e { params = p })) ≡ has e) where
  kept-merge_module :
      (m : ModuleChannelConfig) (t : ChannelTopologyIndex) {t' : ChannelTopologyIndex}
      → merge_module m t ≡ done t'
      → (channel : Bytes) → has (entry_of channel t') ≡ has (entry_of channel t)
  unfolding merge_module
  kept-merge_module m t h channel =
      let (u, h1, h2) =
        >>=-done (merge_endpoints (add_producer m.module_name) m.output_channels t)
          (merge_endpoints (add_consumer m.module_name) m.input_channels) h in
      rw
        (
          has-merge_endpoints has has-channel (add_consumer m.module_name) (λ _. false)
              (λ ep e p _. rw (has-consumer m.module_name e p) (ground arith)) m.input_channels u h2
              channel,
          has-merge_endpoints has has-channel (add_producer m.module_name) (λ _. false)
              (λ ep e p _. rw (has-producer m.module_name e p) (ground arith)) m.output_channels t
              h1 channel,
          any_endpoint-constant channel false m.output_channels,
          any_endpoint-constant channel false m.input_channels,
        )
        (ground arith)

  kept-merge_modules :
      (ms : List ModuleChannelConfig) (t : ChannelTopologyIndex) {t' : ChannelTopologyIndex}
      → merge_modules ms t ≡ done t'
      → (channel : Bytes) → has (entry_of channel t') ≡ has (entry_of channel t)
  unfolding merge_modules
  kept-merge_modules [] t h channel = rw (sym (ap (index_or t) h)) refl
  kept-merge_modules (m ∷ ms) t h channel =
      let (u, h1, h2) = >>=-done (merge_module m t) (merge_modules ms) h in
      rw (kept-merge_modules ms u h2 channel, kept-merge_module m t h1 channel) refl

pub producers-repeats :
    (ms : List ModuleChannelConfig) {t : ChannelTopologyIndex}
    → merge_modules ms [] ≡ done t
    → (channel : Bytes) → repeats (entry_of channel t).producers ≡ false
unfolding find
producers-repeats ms h channel =
    kept-merge_modules (λ e. repeats e.producers) (λ e c. refl)
      (λ name e p. repeats-add_name name e.producers) (λ name e p. refl) ms [] h channel

pub consumers-repeats :
    (ms : List ModuleChannelConfig) {t : ChannelTopologyIndex}
    → merge_modules ms [] ≡ done t
    → (channel : Bytes) → repeats (entry_of channel t).consumers ≡ false
unfolding find
consumers-repeats ms h channel =
    kept-merge_modules (λ e. repeats e.consumers) (λ e c. refl) (λ name e p. refl)
      (λ name e p. repeats-add_name name e.consumers) ms [] h channel
