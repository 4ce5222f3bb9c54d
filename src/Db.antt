-- ===== src/Db.antt =====
-- The database client, validity/src/db/client.rs: the two tables as lists of rows, and each query's
-- SQL as a function on them. A theorem holds for every order of the rows, so the row that a query
-- with LIMIT 1 and no ORDER BY (or with a tie) takes first in the list may be any.
pub mod Table
pub mod Queries
pub mod Updates
pub mod Inserted
pub mod Locks
