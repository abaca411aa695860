-- ===== src/State.antt =====
-- fs/state.c and fs/state.h: the tables of the file system and the functions on them.
pub mod Types
pub mod Bytes
pub mod Tables
pub mod Inodes
pub mod Dir
pub mod Init
