-- ===== src/Tests/Written.antt =====
-- The example after a write of two bytes through its first handle.
use t_cnico_file_system_pt.Prelude.{◌≡◌, refl, pos, [], ◌∷◌, set}
use t_cnico_file_system_pt.State.Types.{State, done}
use t_cnico_file_system_pt.State.Bytes.{poke}
use t_cnico_file_system_pt.State.Tables.{
  data_block_get, get_open_file_entry, valid_inumber, valid_file_handle, valid_block_number,
}
use t_cnico_file_system_pt.State.Inodes.{store_inode, inode_get}
use t_cnico_file_system_pt.Operations.Mutex.{locked, mutex_lock, mutex_unlock, unlock_and_return}
use t_cnico_file_system_pt.Operations.Transfer.{
  tfs_write, write_body, write_open, write_nonempty, write_block, clip_write, advance, memcpy_to,
  store_open_file,
}
use t_cnico_file_system_pt.Tests.Example.{example, example_handle}

abbrev pub after_write : State
after_write = record example {
  fs_data = poke example.fs_data 91 (4 ∷ 5 ∷ []);
  open_file_table = set example.open_file_table 0 (record example_handle { of_offset = 3 });
}

pub after_write-eq : tfs_write (pos 0) (4 ∷ 5 ∷ []) 2 example ≡ done (pos 2, after_write)
unfolding tfs_write write_body write_open write_nonempty write_block clip_write advance memcpy_to
    store_open_file locked mutex_lock mutex_unlock unlock_and_return store_inode inode_get
    data_block_get get_open_file_entry valid_inumber valid_file_handle valid_block_number
after_write-eq = refl
