-- ===== src/TapiocaZ.antt =====
-- TapiocaZ/tasks: the deployment of the TOFTs and of the Balancer, and the operators' tasks on both.
pub mod Builds
pub mod Config
pub mod DeployToft
pub mod DeployBalancer
pub mod Balancer
pub mod ToftTasks
pub mod ToftMinter
pub mod Scopes
