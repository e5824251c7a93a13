-- ===== src/Deploy.antt =====
-- Tapioca-bar/tasks/deploy: the deployment of the stack and of the markets.
pub mod Lookup
pub mod Stack
pub mod Silent
pub mod Found
pub mod Strats
pub mod StratsSilent
pub mod SglMarket
pub mod OriginsMarket
pub mod EmptyStrats
pub mod BigBangOracles
pub mod BigBangMarket
pub mod Mocks
