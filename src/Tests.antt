-- ===== src/Tests.antt =====
-- Runs of the model at concrete inputs, and the theorems applied to them.
mod Runs
mod LockRuns
mod Responses
mod Downloads
mod Drivers
mod Attempts
mod Transfers
mod Governor
mod Timers
mod Pool
mod Retries
mod Culls
mod Policies
