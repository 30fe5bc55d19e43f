-- ===== src/Simulation.antt =====
-- app/simulation: the client that fires requests at a running server.
pub mod Generators
pub mod Movement
pub mod Reporting
pub mod Settings
pub mod CommandLine
pub mod Client
pub mod Runner
pub mod Bursts
pub mod Summary
pub mod Recording
pub mod Bursting
pub mod Loop
pub mod Ending
pub mod Running
