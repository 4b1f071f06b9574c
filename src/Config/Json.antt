-- ===== src/Config/Json.antt =====
-- The JSON reader of common/config/src/launch_plan_config.cpp, `JParser`, of which
-- common/config/src/channel_topology_config.cpp has a copy, `JsonParser`. The position in the text is
-- the text that is left. The two differ in what happens to a number that the library cannot convert:
-- that, and which fractional numbers `std::stod` converts, is an argument.
pub mod Tree
pub mod Reader
pub mod Printer
pub mod RoundTrip
pub mod Total
pub mod Within
pub mod Lengths
pub mod Printed
pub mod Begins
pub mod Lists
mod Tests
