-- ===== src/Storage.antt =====
-- PostgreSQL as the code uses it: tables, the constraints on `rides`, and the writes of a
-- transaction, which its own statements see at once and all others after its commit.
pub mod Tables
pub mod Constraints
pub mod Uniqueness
pub mod Replay
