-- ===== src/Proposer.antt =====
-- The validity proposer, validity/src/proposer.rs: one module for each part of its loop, with the
-- theorems on that part below it. Logs and gauges are left out.
pub mod Chain
pub mod Cover
pub mod Aggregate
pub mod Queue
pub mod Submit
pub mod Tasks
pub mod Loop
