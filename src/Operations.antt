-- ===== src/Operations.antt =====
-- fs/operations.c: the operations of the file system, each under `g_library_mutex`. The bodies
-- between lock and unlock stand in the modules below.
pub mod Mutex
pub mod Open
pub mod Transfer
pub mod Unlink
pub mod Setup
pub mod Sequences
