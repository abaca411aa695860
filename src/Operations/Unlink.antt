-- ===== src/Operations/Unlink.antt =====
-- `tfs_unlink` of fs/operations.c.
pub mod Effect
use t_cnico_file_system_pt.Prelude.{ℤ, pos, minus_one, is_minus_one, not, if◌then◌else◌, Option}
use t_cnico_file_system_pt.State.Types.{Fs, ◌>>=◌, ◌>>◌, root_dir_inum}
use t_cnico_file_system_pt.State.Inodes.{load_inode, inode_get, inode_delete}
use t_cnico_file_system_pt.State.Dir.{clear_dir_entry}
use t_cnico_file_system_pt.Operations.Mutex.{locked, unlock_and_return}
use t_cnico_file_system_pt.Operations.Open.{
  CString, valid_pathname, skip_first, path_bytes, tfs_lookup,
}

unfoldable pub unlink_body : Option CString → Fs ℤ
unlink_body target =
    if not (valid_pathname target) then unlock_and_return minus_one minus_one else do
      root_dir_inode ← inode_get root_dir_inum
      root ← load_inode root_dir_inode
      inum ← tfs_lookup target root
      if is_minus_one inum then unlock_and_return minus_one minus_one else do
        inode_delete inum
        root' ← load_inode root_dir_inode
        e ← clear_dir_entry root' (skip_first (path_bytes target))
        if is_minus_one e
            then unlock_and_return minus_one minus_one
            else unlock_and_return minus_one (pos 0)

unfoldable pub tfs_unlink : Option CString → Fs ℤ
tfs_unlink target = locked minus_one (unlink_body target)
