-- ===== src/Tests.antt =====
-- Runs at concrete inputs, and each theorem applied where its hypotheses hold.
mod Hardware
mod Scheduling
mod Switching
mod Processes
mod Buses
mod Devices
mod PageTables
mod Descriptors
mod Logs
mod Reporting
mod LargeMemory
mod Startups
mod Running
mod Tasks
mod Boot
