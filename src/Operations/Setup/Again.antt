-- ===== src/Operations/Setup/Again.antt =====
-- `tfs_init` of fs/operations.c on a file system that is set up, and after `tfs_destroy`.
use t_cnico_file_system_pt.Prelude.{[], false}
use t_cnico_file_system_pt.State.Types.{State}

-- What `tfs_destroy` leaves.
abbrev destroyed : State → State
destroyed s = record s {
  is_set_up = false;
  inode_table = [];
  freeinode_ts = [];
  fs_data = λ a. 0;
  fs_data_size = 0;
  free_blocks = [];
  open_file_table = [];
  free_open_file_entries = [];
}
