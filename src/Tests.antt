-- ===== src/Tests.antt =====
-- The theorems at concrete inputs, and runs of the definitions.
mod Formats
mod Paths
mod Memory
mod Devices
mod Calls
mod Ram
mod Drivers
mod Commands
mod Handles
mod Layouts
mod MemoryStart
mod Modes
mod Image
mod Locks
mod Configuration
mod Variables
