-- ===== src/Matching.antt =====
-- app/matching: from a pickup point to an assigned driver.
pub mod Geo
pub mod Ranking
pub mod CandidateSearch
pub mod DriverLock
pub mod Rings
pub mod Search
pub mod Order
pub mod Candidates
pub mod Matcher
pub mod LockFree
pub mod Locking
pub mod LockRelease
pub mod Outcome
pub mod Reading
pub mod Correctness
pub mod Success
pub mod Progress
