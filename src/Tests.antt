-- ===== src/Tests.antt =====
-- Runs on concrete states: the tests of the definitions, and an example for each theorem.
mod Setup
mod Numbers
mod Tasks
mod Submission
mod Packets
mod Residuals
mod Operations
mod Workcells
mod Scheduling
mod Optimizing
mod Profiles
mod Phases
mod Invalidating
