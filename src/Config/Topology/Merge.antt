-- ===== src/Config/Topology/Merge.antt =====
-- What merging leaves in the index: the names and the parameters of each channel.
use mould_system_backend.Common.{
  Bool, false, ◌&&◌, ◌||◌, Bytes, bytes_eq, bytes_eq→eq, List, [], ◌∷◌, ◌++◌, ◌≡◌, refl, sym, ap,
  arith, if◌then◌else◌, Dict, assign, mem_bytes, find-assign, Checked, done, refused, >>=-done,
  Bool-cases, inl, inr,
}
use mould_system_backend.Config.Topology.{
  ChannelEndpointConfig, ModuleChannelConfig, ChannelTopologyEntry, ChannelTopologyIndex,
  TopologyError,
}
use mould_system_backend.Config.Topology.Build.{
  entry_of, merge_params, add_name, add_producer, add_consumer, merge_endpoint, merge_endpoints,
  merge_module, merge_modules,
}

-- An endpoint of the list is for the channel.
abbrev pub names_channel : Bytes → List ChannelEndpointConfig → Bool
names_channel channel [] = false
names_channel channel (e ∷ es) = bytes_eq e.channel channel || names_channel channel es

-- Some module of the name has the channel among its outputs.
abbrev pub produces : Bytes → Bytes → List ModuleChannelConfig → Bool
produces channel name [] = false
produces channel name (m ∷ ms) =
    bytes_eq m.module_name name && names_channel channel m.output_channels
    || produces channel name ms

-- Some module of the name has the channel among its inputs.
abbrev pub consumes : Bytes → Bytes → List ModuleChannelConfig → Bool
consumes channel name [] = false
consumes channel name (m ∷ ms) =
    bytes_eq m.module_name name && names_channel channel m.input_channels
    || consumes channel name ms

pub mem_bytes-snoc :
    (x n : Bytes) (ns : List Bytes) → mem_bytes x (ns ++ n ∷ []) ≡ (mem_bytes x ns || bytes_eq n x)
mem_bytes-snoc x n [] = ground arith
mem_bytes-snoc x n (m ∷ ms) = ground (arith, mem_bytes-snoc x n ms)

mem_bytes-add_name :
    (x n : Bytes) (ns : List Bytes) → mem_bytes x (add_name n ns) ≡ (mem_bytes x ns || bytes_eq n x)
mem_bytes-add_name x n ns = ground (arith, mem_bytes-snoc x n ns, bytes_eq→eq n x)

entry_of-assign :
    (key : Bytes) (v : ChannelTopologyEntry) (t : ChannelTopologyIndex) (channel : Bytes)
    → entry_of channel (assign key v t)
      ≡ (if bytes_eq key channel then record v { channel = channel } else entry_of channel t)
entry_of-assign key v t channel = elim (Bool-cases (bytes_eq key channel)) [
  | inl e ↦ rw (find-assign key v t channel, e) refl
  | inr e ↦ rw (find-assign key v t channel, e) refl
]

abbrev pub index_or :
    ChannelTopologyIndex → Checked TopologyError ChannelTopologyIndex → ChannelTopologyIndex
index_or t (done u) = u
index_or t (refused e) = t

-- What one endpoint does.
pub merge_endpoint-done :
    (add : ChannelTopologyEntry → ChannelTopologyEntry) (ep : ChannelEndpointConfig)
    (t : ChannelTopologyIndex) {t' : ChannelTopologyIndex}
    → merge_endpoint add ep t ≡ done t'
    → (p : Dict Bytes) × (merge_params ep.channel ep.params (entry_of ep.channel t).params ≡ done p)
      × (t' ≡ assign ep.channel (add (record (entry_of ep.channel t) { params = p })) t)
unfolding merge_endpoint
merge_endpoint-done add ep t h =
    let (p, e, f) =
      >>=-done (merge_params ep.channel ep.params (entry_of ep.channel t).params) _ h in
    (p, e, cc)

-- Some endpoint of the list is for the channel and passes the test.
abbrev pub any_endpoint : Bytes → (ChannelEndpointConfig → Bool) → List ChannelEndpointConfig → Bool
any_endpoint channel test [] = false
any_endpoint channel test (e ∷ es) =
    bytes_eq e.channel channel && test e || any_endpoint channel test es

pub any_endpoint-constant :
    (channel : Bytes) (b : Bool) (es : List ChannelEndpointConfig)
    → any_endpoint channel (λ _. b) es ≡ (b && names_channel channel es)
any_endpoint-constant channel b [] = ground arith
any_endpoint-constant channel b (e ∷ es) = ground (arith, any_endpoint-constant channel b es)

-- A test of an entry that an endpoint can only turn to true.
module _ (has : ChannelTopologyEntry → Bool)
    (has-channel : (e : ChannelTopologyEntry) (c : Bytes) → has (record e { channel = c }) ≡ has e)
    (add : ChannelTopologyEntry → ChannelTopologyEntry) (adds : ChannelEndpointConfig → Bool)
    (has-add : (ep : ChannelEndpointConfig) (e : ChannelTopologyEntry) (p : Dict Bytes)
      → merge_params ep.channel ep.params e.params ≡ done p
      → has (add (record e { params = p })) ≡ (has e || adds ep)) where
  has-merge_endpoint :
      (ep : ChannelEndpointConfig) (t : ChannelTopologyIndex) {t' : ChannelTopologyIndex}
      → merge_endpoint add ep t ≡ done t'
      → (channel : Bytes)
      → has (entry_of channel t')
        ≡ (has (entry_of channel t) || (bytes_eq ep.channel channel && adds ep))
  has-merge_endpoint ep t h channel =
      let (p, merged, f) = merge_endpoint-done add ep t h in
      elim (Bool-cases (bytes_eq ep.channel channel)) [
        | inl e ↦
            rw
              (
                f,
                entry_of-assign ep.channel (add (record (entry_of ep.channel t) { params = p })) t
                    channel,
                e,
                has-channel (add (record (entry_of ep.channel t) { params = p })) channel,
                has-add ep (entry_of ep.channel t) p merged,
                bytes_eq→eq ep.channel channel e,
              )
              (ground arith)
        | inr e ↦
            rw
              (
                f,
                entry_of-assign ep.channel (add (record (entry_of ep.channel t) { params = p })) t
                    channel,
                e,
              )
              (ground arith)
      ]

  pub has-merge_endpoints :
      (es : List ChannelEndpointConfig) (t : ChannelTopologyIndex) {t' : ChannelTopologyIndex}
      → merge_endpoints add es t ≡ done t'
      → (channel : Bytes)
      → has (entry_of channel t') ≡ (has (entry_of channel t) || any_endpoint channel adds es)
  unfolding merge_endpoints
  has-merge_endpoints [] t h channel = rw (sym (ap (index_or t) h)) (ground arith)
  has-merge_endpoints (e ∷ es) t h channel =
      let (u, h1, h2) = >>=-done (merge_endpoint add e t) (merge_endpoints add es) h in
      rw (has-merge_endpoints es u h2 channel, has-merge_endpoint e t h1 channel) (ground arith)

-- One module adds its name to the producers of its outputs and to the consumers of its inputs.
pub producers-merge_module :
    (m : ModuleChannelConfig) (t : ChannelTopologyIndex) {t' : ChannelTopologyIndex}
    → merge_module m t ≡ done t'
    → (channel x : Bytes)
    → mem_bytes x (entry_of channel t').producers ≡ (
        mem_bytes x (entry_of channel t).producers
        || (bytes_eq m.module_name x && names_channel channel m.output_channels))
unfolding merge_module
producers-merge_module m t h channel x =
    let (u, h1, h2) =
      >>=-done (merge_endpoints (add_producer m.module_name) m.output_channels t)
        (merge_endpoints (add_consumer m.module_name) m.input_channels) h in
    rw
      (
        has-merge_endpoints (λ e. mem_bytes x e.producers) (λ e c. refl)
            (add_consumer m.module_name) (λ _. false) (λ ep e p _. ground arith) m.input_channels u
            h2 channel,
        has-merge_endpoints (λ e. mem_bytes x e.producers) (λ e c. refl)
            (add_producer m.module_name) (λ _. bytes_eq m.module_name x)
            (λ ep e p _. mem_bytes-add_name x m.module_name e.producers) m.output_channels t h1
            channel,
        any_endpoint-constant channel (bytes_eq m.module_name x) m.output_channels,
        any_endpoint-constant channel false m.input_channels,
      )
      (ground arith)

pub consumers-merge_module :
    (m : ModuleChannelConfig) (t : ChannelTopologyIndex) {t' : ChannelTopologyIndex}
    → merge_module m t ≡ done t'
    → (channel x : Bytes)
    → mem_bytes x (entry_of channel t').consumers ≡ (
        mem_bytes x (entry_of channel t).consumers
        || (bytes_eq m.module_name x && names_channel channel m.input_channels))
unfolding merge_module
consumers-merge_module m t h channel x =
    let (u, h1, h2) =
      >>=-done (merge_endpoints (add_producer m.module_name) m.output_channels t)
        (merge_endpoints (add_consumer m.module_name) m.input_channels) h in
    rw
      (
        has-merge_endpoints (λ e. mem_bytes x e.consumers) (λ e c. refl)
            (add_consumer m.module_name) (λ _. bytes_eq m.module_name x)
            (λ ep e p _. mem_bytes-add_name x m.module_name e.consumers) m.input_channels u h2
            channel,
        has-merge_endpoints (λ e. mem_bytes x e.consumers) (λ e c. refl)
            (add_producer m.module_name) (λ _. false) (λ ep e p _. ground arith) m.output_channels t
            h1 channel,
        any_endpoint-constant channel (bytes_eq m.module_name x) m.input_channels,
        any_endpoint-constant channel false m.output_channels,
      )
      (ground arith)

pub producers-merge_modules :
    (ms : List ModuleChannelConfig) (t : ChannelTopologyIndex) {t' : ChannelTopologyIndex}
    → merge_modules ms t ≡ done t'
    → (channel x : Bytes)
    → mem_bytes x (entry_of channel t').producers
      ≡ (mem_bytes x (entry_of channel t).producers || produces channel x ms)
unfolding merge_modules
producers-merge_modules [] t h channel x = rw (sym (ap (index_or t) h)) (ground arith)
producers-merge_modules (m ∷ ms) t h channel x =
    let (u, h1, h2) = >>=-done (merge_module m t) (merge_modules ms) h in
    rw (producers-merge_modules ms u h2 channel x, producers-merge_module m t h1 channel x)
      (ground arith)

pub consumers-merge_modules :
    (ms : List ModuleChannelConfig) (t : ChannelTopologyIndex) {t' : ChannelTopologyIndex}
    → merge_modules ms t ≡ done t'
    → (channel x : Bytes)
    → mem_bytes x (entry_of channel t').consumers
      ≡ (mem_bytes x (entry_of channel t).consumers || consumes channel x ms)
unfolding merge_modules
consumers-merge_modules [] t h channel x = rw (sym (ap (index_or t) h)) (ground arith)
consumers-merge_modules (m ∷ ms) t h channel x =
    let (u, h1, h2) = >>=-done (merge_module m t) (merge_modules ms) h in
    rw (consumers-merge_modules ms u h2 channel x, consumers-merge_module m t h1 channel x)
      (ground arith)
