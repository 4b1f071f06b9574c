-- ===== src/Config/Topology/Channels.antt =====
-- What `build_channel_topology_index` promises of the index it gives.
use mould_system_backend.Common.{
  true, false, Bytes, bytes_eq, bytes_eq→eq, none, some, List, [], ◌∷◌, ◌≡◌, refl, sym, ap, subst,
  ◌∙◌, arith, length, find, mem_bytes, Checked, done, refused, >>=-done, require, require-done,
  Bool-cases, inl, inr, leb,
}
use mould_system_backend.Config.Topology.{
  ModuleChannelConfig, ChannelTopologyEntry, ChannelTopologyIndex, TopologyError,
  multiple_producers, invalid_delivery_mode,
}
use mould_system_backend.Config.Topology.Build.{
  entry_of, entry_or_new, merge_modules, sort_names, check_entry, check_entries,
  build_channel_topology_index, validate_channel_schema_governance, delivery_mode_key,
  value_or_empty, mode_ok,
}
use mould_system_backend.Config.Topology.Merge.{
  produces, consumes, producers-merge_modules, consumers-merge_modules, index_or,
}
use mould_system_backend.Config.Topology.Repeats.{
  mem_bytes-sort_names, repeats, repeats-sort_names, producers-repeats, consumers-repeats,
}
use mould_system_backend.Config.Topology.Params.{has_value, declares, has_value-merge_modules}

-- What the checks leave of an entry.
record IsChecked (e e' : ChannelTopologyEntry) : Type 0 where
  pub producers_sorted : e'.producers ≡ sort_names e.producers
  pub consumers_sorted : e'.consumers ≡ sort_names e.consumers
  pub counted : e'.consumer_count ≡ length e'.consumers
  pub params_kept : e'.params ≡ e.params
  pub one_producer : leb (length e'.producers) 1 ≡ true

abbrev sorted_entry : ChannelTopologyEntry → ChannelTopologyEntry
sorted_entry e = record e {
  producers = sort_names e.producers;
  consumers = sort_names e.consumers;
  consumer_count = length (sort_names e.consumers);
}

abbrev entry_in :
    ChannelTopologyEntry → Checked TopologyError ChannelTopologyEntry → ChannelTopologyEntry
entry_in e (done u) = u
entry_in e (refused x) = e

check_entry-IsChecked :
    (channel : Bytes) (e : ChannelTopologyEntry) {e' : ChannelTopologyEntry}
    → check_entry channel e ≡ done e'
    → IsChecked e e'
unfolding check_entry
check_entry-IsChecked channel e {e'} h =
    let (_, one, h1) =
      >>=-done (require (leb (length (sort_names e.producers)) 1) (multiple_producers channel)) _
        h in
    let mode = find delivery_mode_key e.params in
    let (_, _, h2) =
      >>=-done (require (mode_ok mode) (invalid_delivery_mode channel (value_or_empty mode))) _
        h1 in
    let (_, _, h3) = >>=-done (validate_channel_schema_governance (sorted_entry e)) _ h2 in
    let same : sorted_entry e ≡ e' = ap (entry_in e) h3 in
    subst (λ u. IsChecked e u) same
      (record {
        producers_sorted = refl;
        consumers_sorted = refl;
        counted = refl;
        params_kept = refl;
        one_producer =
            require-done (leb (length (sort_names e.producers)) 1) (multiple_producers channel) one;
      })

new-IsChecked :
    (channel : Bytes) → IsChecked (entry_or_new channel none) (entry_or_new channel none)
unfolding sort_names
new-IsChecked channel = record {
  producers_sorted = refl;
  consumers_sorted = refl;
  counted = refl;
  params_kept = refl;
  one_producer = refl;
}

renamed-IsChecked :
    (channel : Bytes) (e e' : ChannelTopologyEntry)
    → IsChecked e e'
    → IsChecked (entry_or_new channel (some e)) (entry_or_new channel (some e'))
renamed-IsChecked channel e e' h = record {
  producers_sorted = h.producers_sorted;
  consumers_sorted = h.consumers_sorted;
  counted = h.counted;
  params_kept = h.params_kept;
  one_producer = h.one_producer;
}

check_entries-IsChecked :
    (t : ChannelTopologyIndex) {t' : ChannelTopologyIndex}
    → check_entries t ≡ done t'
    → (channel : Bytes) → IsChecked (entry_of channel t) (entry_of channel t')
unfolding check_entries find
check_entries-IsChecked [] h channel =
    subst (λ u. IsChecked (entry_of channel []) (entry_of channel u)) (ap (index_or []) h)
      (new-IsChecked channel)
check_entries-IsChecked ((c, e) ∷ rest) h channel =
    let (e', h1, g) = >>=-done (check_entry c e) _ h in
    let (rest', h2, h3) = >>=-done (check_entries rest) _ g in
    subst (λ u. IsChecked (entry_of channel ((c, e) ∷ rest)) (entry_of channel u))
      (ap (index_or rest) h3)
      (chosen e' rest' (check_entry-IsChecked c e h1) (check_entries-IsChecked rest h2 channel))
  where
    chosen :
        (e' : ChannelTopologyEntry) (rest' : ChannelTopologyIndex)
        → IsChecked e e'
        → IsChecked (entry_of channel rest) (entry_of channel rest')
        → IsChecked (entry_of channel ((c, e) ∷ rest)) (entry_of channel ((c, e') ∷ rest'))
    chosen e' rest' here there = elim (Bool-cases (bytes_eq c channel)) [
      | inl same ↦ rw (find, same) (renamed-IsChecked channel e e' here)
      | inr other ↦ rw (find, other) there
    ]

build-parts :
    (configs : List ModuleChannelConfig) {topology : ChannelTopologyIndex}
    → build_channel_topology_index configs ≡ done topology
    → (merged : ChannelTopologyIndex) × (merge_modules configs [] ≡ done merged)
      × ((channel : Bytes) → IsChecked (entry_of channel merged) (entry_of channel topology))
unfolding build_channel_topology_index
build-parts configs h =
    let (merged, h1, h2) = >>=-done (merge_modules configs []) check_entries h in
    (merged, h1, check_entries-IsChecked merged h2)

-- Of an index that is built, the producers of a channel are the names of the modules with an output
-- of it, the consumers the names of the modules with an input of it; no name stands twice among
-- either, and the count of consumers is the length of their list.
pub build-names :
    (configs : List ModuleChannelConfig) (topology : ChannelTopologyIndex)
    → build_channel_topology_index configs ≡ done topology
    → (channel name : Bytes)
    → (mem_bytes name (entry_of channel topology).producers ≡ produces channel name configs)
      × (mem_bytes name (entry_of channel topology).consumers ≡ consumes channel name configs)
      × (repeats (entry_of channel topology).producers ≡ false)
      × (repeats (entry_of channel topology).consumers ≡ false)
      × ((entry_of channel topology).consumer_count ≡ length (entry_of channel topology).consumers)
unfolding find
build-names configs topology h channel name =
    let (merged, h1, checked) = build-parts configs h in
    let at = checked channel in
    (
      rw
          (
            at.producers_sorted,
            mem_bytes-sort_names name (entry_of channel merged).producers,
            producers-merge_modules configs [] h1 channel name,
          )
          refl,
      rw
          (
            at.consumers_sorted,
            mem_bytes-sort_names name (entry_of channel merged).consumers,
            consumers-merge_modules configs [] h1 channel name,
          )
          refl,
      rw
          (
            at.producers_sorted,
            repeats-sort_names (entry_of channel merged).producers,
            producers-repeats configs h1 channel,
          )
          refl,
      rw
          (
            at.consumers_sorted,
            repeats-sort_names (entry_of channel merged).consumers,
            consumers-repeats configs h1 channel,
          )
          refl,
      at.counted,
    )

at_most_one :
    (names : List Bytes) (a b : Bytes)
    → leb (length names) 1 ≡ true
    → mem_bytes a names ≡ true
    → mem_bytes b names ≡ true
    → a ≡ b
at_most_one [] a b h ha hb = cc
at_most_one (x ∷ []) a b h ha hb =
    sym (bytes_eq→eq x a (ground arith)) ∙ bytes_eq→eq x b (ground arith)
at_most_one (x ∷ y ∷ rest) a b h ha hb = ground arith

-- When an index is built, two modules with an output of the same channel have the same name.
pub build-one_producer :
    (configs : List ModuleChannelConfig) (topology : ChannelTopologyIndex)
    → build_channel_topology_index configs ≡ done topology
    → (channel a b : Bytes) → produces channel a configs ≡ true
    → produces channel b configs ≡ true
    → a ≡ b
build-one_producer configs topology h channel a b ha hb =
    let (merged, h1, checked) = build-parts configs h in
    at_most_one (entry_of channel topology).producers a b (checked channel).one_producer
      ((build-names configs topology h channel a).0 ∙ ha)
      ((build-names configs topology h channel b).0 ∙ hb)

-- Of an index that is built, a parameter of a channel has a value exactly when some endpoint of the
-- channel, of an output or of an input of some module, lists the parameter with this value.
pub build-params :
    (configs : List ModuleChannelConfig) (topology : ChannelTopologyIndex)
    → build_channel_topology_index configs ≡ done topology
    → (channel key value : Bytes)
    → has_value key value (entry_of channel topology).params ≡ declares channel key value configs
unfolding find
build-params configs topology h channel key value =
    let (merged, h1, checked) = build-parts configs h in
    rw ((checked channel).params_kept, has_value-merge_modules key value configs [] h1 channel) refl
