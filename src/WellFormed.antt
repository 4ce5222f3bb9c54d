-- ===== src/WellFormed.antt =====
-- Well-formed rows and tasks, an invariant of every operation of the proposer, and that its loop does
-- not panic. The children go through the database client, the requester and the proposer.
pub mod Rows
pub mod Fetched
pub mod Requests
pub mod Ranges
pub mod Tasks
pub mod Aggregates
pub mod Iteration
pub mod Runs
