-- ===== src/Examples.antt =====
-- Runs on concrete inputs: the cases of the tests in validity/src/utils.rs, and an instance of each
-- property.
mod Data
mod Tests
mod Core
mod Parts
mod Programs
mod Games
mod Agents
mod Fetch
mod Witnesses
mod Ranges
