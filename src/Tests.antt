-- ===== src/Tests.antt =====
-- Runs of the model on small data, and instances of its hypotheses.
mod FixedFloats
mod Reference
mod Samples
mod Runs
mod Interleavings
mod Measures
mod Simulated
mod Searches
mod Served
mod Witnesses
