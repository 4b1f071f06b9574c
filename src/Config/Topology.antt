-- ===== src/Config/Topology.antt =====
-- common/config/src/channel_topology_config.cpp: which modules produce and consume each channel.
pub mod Build
pub mod Resolve
pub mod Bounds
pub mod Merge
pub mod Params
pub mod Repeats
pub mod Channels
pub mod Files
pub mod Proto
mod Tests
use mould_system_backend.Common.{ℕ, Bytes, List, Dict}

pub record ChannelEndpointConfig : Type 0 where
  pub channel : Bytes
  pub params : Dict Bytes

pub record ModuleChannelConfig : Type 0 where
  pub module_name : Bytes
  pub input_channels : List ChannelEndpointConfig
  pub output_channels : List ChannelEndpointConfig

pub record ChannelTopologyEntry : Type 0 where
  pub channel : Bytes
  pub producers : List Bytes
  pub consumers : List Bytes
  pub consumer_count : ℕ
  pub params : Dict Bytes

abbrev pub ChannelTopologyIndex : Type 0
ChannelTopologyIndex = Dict ChannelTopologyEntry

pub data ShmBusDeliveryMode : Type 0 where
  broadcast compete : ShmBusDeliveryMode

pub data ChannelPayloadType : Type 0 where
  unknown protobuf image binary_blob : ChannelPayloadType

-- The texts of the errors.
pub data TopologyError : Type 0 where
  parameter_conflict : Bytes → Bytes → TopologyError
  multiple_producers : Bytes → TopologyError
  invalid_delivery_mode : Bytes → Bytes → TopologyError
  unknown_payload_type : Bytes → Bytes → TopologyError
  schema_mismatch : Bytes → Bytes → TopologyError
