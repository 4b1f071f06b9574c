-- ===== src/Config/Topology/Files/Indexed.antt =====
-- The index that is built from the files of all modules.
use mould_system_backend.Common.{
  Bytes, List, [], ◌∷◌, ◌≡◌, ap, subst, Checked, done, refused, >>=-done, mem_bytes,
}
use mould_system_backend.Config.Topology.{ModuleChannelConfig, ChannelTopologyIndex, TopologyError}
use mould_system_backend.Config.Topology.Build.{entry_of, build_channel_topology_index}
use mould_system_backend.Config.Topology.Merge.{produces, consumes}
use mould_system_backend.Config.Topology.Channels.{build-names}
use mould_system_backend.Config.Topology.Files.{
  ConfigError, Reals, Files, opened, parse_all, topology_checked, parse_module_channel_config_text,
  parse_module_channel_config_json_file, build_channel_topology_index_from_files,
}
use mould_system_backend.Config.Topology.Files.Accepted.{
  IsModuleConfig, parse_module_channel_config_text-IsModuleConfig,
}

-- One configuration for each file, under the name that the file is listed with.
abbrev pub AreModuleConfigs : List (Bytes × Bytes) → List ModuleChannelConfig → Type 0
AreModuleConfigs [] [] = Unit {0}
AreModuleConfigs ((name, path) ∷ rest) (c ∷ cs) = IsModuleConfig name c × AreModuleConfigs rest cs
AreModuleConfigs _ _ = ⊥

abbrev configs_or :
    List ModuleChannelConfig
    → Checked ConfigError (List ModuleChannelConfig)
    → List ModuleChannelConfig
configs_or cs (done ds) = ds
configs_or cs (refused e) = cs

parse_all-AreModuleConfigs :
    (reals : Reals) (files : Files) (listed : List (Bytes × Bytes))
    {configs : List ModuleChannelConfig}
    → parse_all reals files listed ≡ done configs
    → AreModuleConfigs listed configs
unfolding parse_all parse_module_channel_config_json_file
parse_all-AreModuleConfigs reals files [] h = subst (AreModuleConfigs []) (ap (configs_or []) h) tt
parse_all-AreModuleConfigs reals files ((name, path) ∷ rest) h =
    let (config, f, h1) =
      >>=-done (parse_module_channel_config_json_file reals files name path) _ h in
    let (configs, g, h2) = >>=-done (parse_all reals files rest) _ h1 in
    let (content, _, k) =
      >>=-done (opened (files path)) (parse_module_channel_config_text reals name) f in
    subst (AreModuleConfigs ((name, path) ∷ rest)) (ap (configs_or []) h2) (
      parse_module_channel_config_text-IsModuleConfig reals name content k,
      parse_all-AreModuleConfigs reals files rest g,
    )

topology_checked-done :
    (r : Checked TopologyError ChannelTopologyIndex) {t : ChannelTopologyIndex}
    → topology_checked r ≡ done t
    → r ≡ done t
topology_checked-done (done u) h = ap (λ x. done x) (ap index_in h)
  where
    index_in : Checked ConfigError ChannelTopologyIndex → ChannelTopologyIndex
    index_in (done t) = t
    index_in (refused e) = u
topology_checked-done (refused e) h = cc

-- An index that is built from files comes from one accepted configuration for each file; the producers
-- of a channel are the modules with an output of it, and the consumers those with an input.
pub build_channel_topology_index_from_files_lem :
    (reals : Reals) (files : Files) (listed : List (Bytes × Bytes))
    (topology : ChannelTopologyIndex)
    → build_channel_topology_index_from_files reals files listed ≡ done topology
    → (configs : List ModuleChannelConfig) × AreModuleConfigs listed configs
      × ((channel name : Bytes)
          → (mem_bytes name (entry_of channel topology).producers ≡ produces channel name configs)
            × (mem_bytes name (entry_of channel topology).consumers
                ≡ consumes channel name configs))
unfolding build_channel_topology_index_from_files
build_channel_topology_index_from_files_lem reals files listed topology h =
    let (configs, f, g) = >>=-done (parse_all reals files listed) _ h in
    let built = topology_checked-done (build_channel_topology_index configs) g in
    (
      configs,
      parse_all-AreModuleConfigs reals files listed f,
      λ channel name.
          let names = build-names configs topology built channel name in (names.0, names.1),
    )
