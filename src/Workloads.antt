-- ===== src/Workloads.antt =====
-- internal/service: the services that create containers, and the gates that stand before them.
pub mod Paths
pub mod Engine
pub mod Creator
pub mod Stacks
mod Examples
