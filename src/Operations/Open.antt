-- ===== src/Operations/Open.antt =====
-- `tfs_open`, `tfs_lookup` and `tfs_close` of fs/operations.c. A path is the list of its bytes, or
-- `none` for NULL; the mode is the number with the flags' bits.
pub mod Close
pub mod Handle
pub mod Existing
pub mod Create
use t_cnico_file_system_pt.Prelude.{
  ℕ, ◌/◌, ◌%◌, ℤ, pos, minus_one, is_minus_one, is_nonneg, List, [], ◌∷◌, Bool, false, ltb, ◌==◌,
  ◌&&◌, not, if◌then◌else◌, length, Option, none, some,
}
use t_cnico_file_system_pt.State.Types.{Fs, pure, ◌>>=◌, ◌>>◌, Inode, t_file, root_dir_inum}
use t_cnico_file_system_pt.State.Tables.{
  data_block_free, add_to_open_file_table, remove_from_open_file_table, get_open_file_entry,
}
use t_cnico_file_system_pt.State.Inodes.{
  load_inode, store_inode, inode_get, inode_create, inode_delete,
}
use t_cnico_file_system_pt.State.Dir.{find_in_dir, add_dir_entry}
use t_cnico_file_system_pt.Operations.Mutex.{locked, unlock_and_return}

abbrev pub CString : Type 0
CString = List ℕ

-- `mode & 0b001`, `mode & 0b010` and `mode & 0b100`.
abbrev pub has_creat : ℕ → Bool
has_creat mode = mode % 2 == 1

abbrev pub has_trunc : ℕ → Bool
has_trunc mode = mode / 2 % 2 == 1

abbrev pub has_append : ℕ → Bool
has_append mode = mode / 4 % 2 == 1

abbrev pub slash : ℕ
slash = 47

unfoldable pub valid_pathname : Option CString → Bool
valid_pathname none = false
valid_pathname (some []) = false
valid_pathname (some (c ∷ name)) = ltb 1 (length (c ∷ name)) && (c == slash)

-- `name + 1`
abbrev pub skip_first : CString → CString
skip_first [] = []
skip_first (c ∷ name) = name

abbrev pub path_bytes : Option CString → CString
path_bytes none = []
path_bytes (some name) = name

unfoldable pub tfs_lookup : Option CString → Inode → Fs ℤ
tfs_lookup name root_inode =
    if not (valid_pathname name)
    then pure minus_one
    else find_in_dir root_inode (skip_first (path_bytes name))

-- The truncation of an existing file.
unfoldable pub truncate : ℤ → Fs (Unit {0})
truncate inum = do
  inode ← load_inode inum
  if ltb 0 inode.i_size
      then (do data_block_free inode.i_data_block; store_inode inum (record inode { i_size = 0 }))
      else pure tt

-- `inum >= 0`: the file exists.
unfoldable pub open_existing : ℤ → ℕ → Fs ℤ
open_existing inum mode = do
  inum ← inode_get inum
  if has_trunc mode then truncate inum else pure tt
  inode ← load_inode inum
  ret ← add_to_open_file_table inum (if has_append mode then inode.i_size else 0)
  unlock_and_return minus_one ret

-- The file does not exist, and is to be created.
unfoldable pub open_created : ℤ → CString → Fs ℤ
open_created root_dir_inode name = do
  inum ← inode_create t_file
  if is_minus_one inum then unlock_and_return minus_one minus_one else do
    root ← load_inode root_dir_inode
    e ← add_dir_entry root (skip_first name) inum
    if is_minus_one e
        then (do inode_delete inum; unlock_and_return minus_one minus_one)
        else do ret ← add_to_open_file_table inum 0; unlock_and_return minus_one ret

unfoldable pub open_body : Option CString → ℕ → Fs ℤ
open_body name mode =
    if not (valid_pathname name) then unlock_and_return minus_one minus_one else do
      root_dir_inode ← inode_get root_dir_inum
      root ← load_inode root_dir_inode
      inum ← tfs_lookup name root
      if is_nonneg inum
          then open_existing inum mode
          else if has_creat mode
          then open_created root_dir_inode (path_bytes name)
          else unlock_and_return minus_one minus_one

unfoldable pub tfs_open : Option CString → ℕ → Fs ℤ
tfs_open name mode = locked minus_one (open_body name mode)

unfoldable pub close_body : ℤ → Fs ℤ
close_body fhandle = do
  file ← get_open_file_entry fhandle
  elim file [
    | none ↦ unlock_and_return minus_one minus_one
    | some p ↦ (do remove_from_open_file_table fhandle; unlock_and_return minus_one (pos 0))
  ]

unfoldable pub tfs_close : ℤ → Fs ℤ
tfs_close fhandle = locked minus_one (close_body fhandle)
