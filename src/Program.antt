-- ===== src/Program.antt =====
-- The effects of the program: what its code asks of the database session, of Redis and of the
-- process, and how a run answers. A function of the code is a `Prog`, a tree of commands.
pub mod State
pub mod Commands
pub mod Effects
pub mod Exec
pub mod Laws
pub mod Kept
pub mod Issues
pub mod LockFree
pub mod Cases
pub mod Answers
pub mod Rests
pub mod Raises
pub mod DriverCalls
pub mod SessionScope
