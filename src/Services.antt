-- ===== src/Services.antt =====
-- pkg/ueficore: the services that the Go code calls in the firmware. Boot is the boot services,
-- Files the file protocol and the file system, System and Tables the system table and the runtime services.
pub mod Boot
pub mod Failing
pub mod Files
pub mod Tables
pub mod System
pub mod Heap
pub mod Image
pub mod Safety
pub mod Configuration
pub mod Contracts
pub mod MapRead
pub mod Region
pub mod Reading
pub mod Whole
