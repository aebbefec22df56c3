-- ===== src/Monitor.antt =====
-- The monitor process of src/monitor.c: the health checks, the loads, the removal of deleted servers
-- and the rebalancing of the hash table, and one round of them.
pub mod Check
pub mod Load
pub mod Delete
pub mod Rebalance
pub mod Shape
pub mod Round
pub mod Sorting
pub mod Examples
