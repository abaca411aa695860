-- ===== src/Tests/Setup.antt =====
-- The theorems on `tfs_init` of fs/operations.c, at small tables.
use t_cnico_file_system_pt.Prelude.{◌≡◌, refl, arith, pos, some, [], false, replicate}
use t_cnico_file_system_pt.State.Types.{State, done, TfsParams, t_file, taken}
use t_cnico_file_system_pt.Operations.Setup.{tfs_init}
use t_cnico_file_system_pt.Operations.Setup.Fresh.{IsFresh, tfs_init-IsFresh}
use t_cnico_file_system_pt.Operations.Setup.Fresh.Tables.{IsAllocated}
use t_cnico_file_system_pt.State.Init.{Allocation}

abbrev small_params : TfsParams
small_params = record {
  max_inode_count = 3;
  max_block_count = 2;
  max_open_files_count = 2;
  block_size = 90;
}

abbrev pub unset : State
unset = record {
  params = small_params;
  is_set_up = false;
  inode_table = [];
  freeinode_ts = [];
  fs_data = λ a. 0;
  fs_data_size = 0;
  free_blocks = [];
  open_file_table = [];
  free_open_file_entries = [];
  mutex_locked = false;
}

abbrev garbage : Allocation
garbage = record {
  inodes = some (replicate 3 (record { i_node_type = t_file; i_size = 77; i_data_block = pos 9 }));
  inode_states = some (replicate 3 taken);
  bytes = some (λ a. 55);
  bytes_size = 180;
  block_states = some (replicate 2 taken);
  open_files = some (replicate 2 (record { of_inumber = pos 8; of_offset = 99 }));
  open_file_states = some (replicate 2 taken);
}

garbage-IsAllocated : IsAllocated garbage small_params
garbage-IsAllocated = record {
  inodes_given = refl;
  inode_states_given = refl;
  bytes_given = refl;
  block_states_given = refl;
  open_files_given = refl;
  open_file_states_given = refl;
  inodes = refl;
  inode_states = refl;
  bytes = refl;
  block_states = refl;
  open_files = refl;
  open_file_states = refl;
  some_inodes = omega arith;
  some_blocks = omega arith;
  some_bytes = omega arith;
  inodes_fit = omega arith;
  blocks_fit = omega arith;
  bytes_fit = omega arith;
}

tfs_init-IsFresh_example :
    (s' : State) × (tfs_init garbage (some small_params) unset ≡ done (pos 0, s'))
    × IsFresh s'
    × (s'.params ≡ small_params)
    × (s'.mutex_locked ≡ unset.mutex_locked)
tfs_init-IsFresh_example =
    tfs_init-IsFresh garbage (some small_params) unset garbage-IsAllocated refl
