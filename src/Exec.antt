-- ===== src/Exec.antt =====
-- Tapioca-bar/tasks/exec: the tasks that an operator runs on a deployed system.
pub mod FillCluster
pub mod RegisterYbAssets
pub mod MarketConfig
pub mod PacketTypes
pub mod Operators
pub mod CrossChain
pub mod MockSwapper
pub mod Proxies
pub mod Stale
