-- ===== src/Tests.antt =====
-- Runs of the theorems at concrete inputs.
mod Pages
mod Calls
mod Locks
mod Strings
mod Events
mod Clocks
mod Drivers
mod Devices
mod Boot
mod Threads
mod Cpus
mod Exits
mod Interrupts
mod Serial
mod Tools
