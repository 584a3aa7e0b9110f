-- ===== src/Ovs.antt =====
-- The network fabric over Open vSwitch, staging/kos/pkg/networkfabric/ovs/ovs.go.
pub mod Commands
pub mod Flows
pub mod Parsing
pub mod Fabric
pub mod Listing
mod Tests
