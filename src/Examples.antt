-- ===== src/Examples.antt =====
-- Tests of the definitions, and the theorems at concrete inputs.
mod Data
mod Records
mod Logs
mod Queues
mod Calls
mod Races
mod Overlaps
mod Reopenings
mod Programs
mod LoadTests
mod Channels
mod Lifetimes
