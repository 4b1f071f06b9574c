-- ===== src/Config.antt =====
-- common/config/src: the launch plan and the channel topology that the master starts from. Files are
-- an argument, and a `std::string` is the list of its bytes.
pub mod Decimal
pub mod Streams
pub mod Json
pub mod Topology
pub mod LaunchPlan
