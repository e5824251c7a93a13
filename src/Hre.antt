-- ===== src/Hre.antt =====
-- The Hardhat runtime environment as the tasks see it: what a task can do to the chain, to the
-- deployment database and to the terminal, and what these answer.
pub mod Types
pub mod World
pub mod Task
pub mod Seen
pub mod Returns
pub mod Throws
pub mod Sends
pub mod Answers
pub mod Events
pub mod Fails
pub mod Obliging
