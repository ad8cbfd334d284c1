-- ===== src/Db.antt =====
-- crates/garret-server/src/db.rs: the SQLite tables and every statement on them. A statement that
-- reads is a function of the database, one that writes returns the new database; a transaction that
-- fails is an error, and the database stays what it was.
pub mod Schema
pub mod Objects
pub mod Evict
pub mod Negotiate
pub mod Rows
pub mod WellFormed
pub mod Inserted
pub mod Insert
pub mod Duplicates
pub mod Protected
pub mod Candidates
pub mod Refresh
pub mod Prune
mod Tests
