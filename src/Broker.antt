-- ===== src/Broker.antt =====
-- src/broker: the metadata storage of all clusters.
pub mod Store
pub mod Slots
pub mod Migrate
pub mod Assign
pub mod MetaStore
pub mod Commit
pub mod Views
pub mod Limit
pub mod Chunks
pub mod Proxies
pub mod Allocate
pub mod Query
pub mod Nodes
pub mod Failover
pub mod ChangeConfig
pub mod Reached
pub mod ScaleDown
pub mod Epochs
pub mod Tests
