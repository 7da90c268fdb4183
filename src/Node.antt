-- ===== src/Node.antt =====
-- internal/node: the replication service.
pub mod Kind
pub mod Packet
pub mod Prefix
pub mod Transfer
pub mod Scheduler
pub mod Policy
pub mod Controller
pub mod Ids
pub mod Inventory
pub mod Radix
pub mod Runtime
