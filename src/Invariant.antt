-- ===== src/Invariant.antt =====
-- The invariant of the file system between operations, and the changes of state that keep it.
pub mod Defs
pub mod Changes
pub mod Calls
pub mod Root
pub mod Delete
