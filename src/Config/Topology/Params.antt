-- ===== src/Config/Topology/Params.antt =====
-- What merging leaves of the parameters that the endpoints of a channel declare.
use mould_system_backend.Common.{
  Bool, true, false, ◌&&◌, ◌||◌, Bytes, bytes_eq, bytes_eq→eq, Option, none, some, List, [], ◌∷◌,
  ◌≡◌, refl, sym, ap, ◌∙◌, arith, if◌then◌else◌, Dict, find, emplace, find-emplace, or_new, Checked,
  done, refused, ◌>>=◌, >>=-done, require, require-done, Bool-cases, inl, inr, ◌⊎◌,
}
use mould_system_backend.Config.Topology.{
  ChannelEndpointConfig, ModuleChannelConfig, ChannelTopologyEntry, ChannelTopologyIndex,
  TopologyError, parameter_conflict,
}
use mould_system_backend.Config.Topology.Build.{
  entry_of, merge_params, merge_param, add_producer, add_consumer, merge_endpoints, merge_module,
  merge_modules,
}
use mould_system_backend.Config.Topology.Merge.{any_endpoint, has-merge_endpoints, index_or}

abbrev pub is_value : Bytes → Option Bytes → Bool
is_value v none = false
is_value v (some w) = bytes_eq w v

-- The parameters have the value under the key.
abbrev pub has_value : Bytes → Bytes → Dict Bytes → Bool
has_value key v params = is_value v (find key params)

-- The pair is in the list.
abbrev pub lists_param : Bytes → Bytes → Dict Bytes → Bool
lists_param key v [] = false
lists_param key v ((k, w) ∷ rest) = bytes_eq k key && bytes_eq w v || lists_param key v rest

-- Some module gives the parameter of the channel this value, on its output or its input side.
abbrev pub declares : Bytes → Bytes → Bytes → List ModuleChannelConfig → Bool
declares channel key v [] = false
declares channel key v (m ∷ ms) =
    any_endpoint channel (λ e. lists_param key v e.params) m.output_channels
    || any_endpoint channel (λ e. lists_param key v e.params) m.input_channels
    || declares channel key v ms

Option-cases : (o : Option Bytes) → (o ≡ none) ⊎ ((w : Bytes) × (o ≡ some w))
Option-cases none = inl refl
Option-cases (some w) = inr (w, refl)

abbrev params_or : Dict Bytes → Checked TopologyError (Dict Bytes) → Dict Bytes
params_or p (done q) = q
params_or p (refused e) = p

module _ (key v : Bytes) where
  merge_param-new :
      (channel k w : Bytes) (p : Dict Bytes)
      → find k p ≡ none
      → merge_param channel k w p ≡ done (emplace k w p)
  unfolding merge_param
  merge_param-new channel k w p e = rw (merge_param, e) refl

  merge_param-known :
      (channel k w : Bytes) (p : Dict Bytes) {u : Bytes} {q : Dict Bytes}
      → find k p ≡ some u
      → merge_param channel k w p ≡ done q
      → (u ≡ w) × (q ≡ p)
  unfolding merge_param
  merge_param-known channel k w p {u} {q} e h =
      let chosen : require (bytes_eq u w) (parameter_conflict channel k) >>= (λ _. done p)
          ≡ done q =
        rw (merge_param, e) at h in
      let (_, same, kept) =
        >>=-done (require (bytes_eq u w) (parameter_conflict channel k)) (λ _. done p) chosen in
      (
        bytes_eq→eq u w (require-done (bytes_eq u w) (parameter_conflict channel k) same),
        sym (ap (params_or p) kept),
      )

  has_value-merge_param :
      (channel k w : Bytes) (p : Dict Bytes) {q : Dict Bytes}
      → merge_param channel k w p ≡ done q
      → has_value key v q ≡ (has_value key v p || (bytes_eq k key && bytes_eq w v))
  has_value-merge_param channel k w p h = elim (Option-cases (find k p)) [
    | inl e ↦
        rw
          (
            sym (ap (params_or p) (sym (merge_param-new channel k w p e) ∙ h)),
            find-emplace k w p key,
          )
          (added k w p (bytes_eq→eq k key) e)
    | inr (u, e) ↦
        let (same, kept) = merge_param-known channel k w p e h in
        rw (kept, sym same) (present k u p (bytes_eq→eq k key) e)
  ]
    where
      added :
          (k w : Bytes) (p : Dict Bytes)
          → (bytes_eq k key ≡ true → k ≡ key)
          → find k p ≡ none
          → is_value v (if bytes_eq k key then or_new (find key p) w else find key p)
            ≡ (has_value key v p || (bytes_eq k key && bytes_eq w v))
      added k w p back e = elim (Bool-cases (bytes_eq k key)) [
        | inl same ↦ rw (same, sym (back same), e) refl
        | inr other ↦ rw other (ground arith)
      ]

      present :
          (k u : Bytes) (p : Dict Bytes)
          → (bytes_eq k key ≡ true → k ≡ key)
          → find k p ≡ some u
          → has_value key v p ≡ (has_value key v p || (bytes_eq k key && bytes_eq u v))
      present k u p back e = elim (Bool-cases (bytes_eq k key)) [
        | inl same ↦ rw (same, sym (back same), e) (ground arith)
        | inr other ↦ rw other (ground arith)
      ]

  pub has_value-merge_params :
      (channel : Bytes) (ps p : Dict Bytes) {q : Dict Bytes}
      → merge_params channel ps p ≡ done q
      → has_value key v q ≡ (has_value key v p || lists_param key v ps)
  unfolding merge_params
  has_value-merge_params channel [] p h = rw (sym (ap (params_or p) h)) (ground arith)
  has_value-merge_params channel ((k, w) ∷ rest) p h =
      let (u, h1, h2) = >>=-done (merge_param channel k w p) (merge_params channel rest) h in
      rw (has_value-merge_params channel rest u h2, has_value-merge_param channel k w p h1)
        (ground arith)

  has_value-merge_endpoints :
      (add : ChannelTopologyEntry → ChannelTopologyEntry)
      → ((e : ChannelTopologyEntry) → (add e).params ≡ e.params)
      → (es : List ChannelEndpointConfig) (t : ChannelTopologyIndex) {t' : ChannelTopologyIndex}
      → merge_endpoints add es t ≡ done t'
      → (channel : Bytes)
      → has_value key v (entry_of channel t').params ≡ (
          has_value key v (entry_of channel t).params
          || any_endpoint channel (λ e. lists_param key v e.params) es)
  has_value-merge_endpoints add kept es t h channel =
      has-merge_endpoints (λ e. has_value key v e.params) (λ e c. refl) add
        (λ ep. lists_param key v ep.params)
        (λ ep e p merged.
          rw (kept (record e { params = p }))
            (has_value-merge_params ep.channel ep.params e.params merged))
        es t h channel

  has_value-merge_module :
      (m : ModuleChannelConfig) (t : ChannelTopologyIndex) {t' : ChannelTopologyIndex}
      → merge_module m t ≡ done t'
      → (channel : Bytes)
      → has_value key v (entry_of channel t').params
        ≡ (has_value key v (entry_of channel t).params || declares channel key v (m ∷ []))
  unfolding merge_module
  has_value-merge_module m t h channel =
      let (u, h1, h2) =
        >>=-done (merge_endpoints (add_producer m.module_name) m.output_channels t)
          (merge_endpoints (add_consumer m.module_name) m.input_channels) h in
      rw
        (
          has_value-merge_endpoints (add_consumer m.module_name) (λ e. refl) m.input_channels u h2
              channel,
          has_value-merge_endpoints (add_producer m.module_name) (λ e. refl) m.output_channels t h1
              channel,
        )
        (ground arith)

  pub has_value-merge_modules :
      (ms : List ModuleChannelConfig) (t : ChannelTopologyIndex) {t' : ChannelTopologyIndex}
      → merge_modules ms t ≡ done t'
      → (channel : Bytes)
      → has_value key v (entry_of channel t').params
        ≡ (has_value key v (entry_of channel t).params || declares channel key v ms)
  unfolding merge_modules
  has_value-merge_modules [] t h channel = rw (sym (ap (index_or t) h)) (ground arith)
  has_value-merge_modules (m ∷ ms) t h channel =
      let (u, h1, h2) = >>=-done (merge_module m t) (merge_modules ms) h in
      rw (has_value-merge_modules ms u h2 channel, has_value-merge_module m t h1 channel)
        (ground arith)
