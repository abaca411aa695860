-- ===== src/Invariant/Defs.antt =====
-- The invariant of the state of fs/state.c between the operations of fs/operations.c.
use t_cnico_file_system_pt.Prelude.{
  arith, get_elem?_bound, ℕ, ◌*◌, ◌≤◌, ◌<◌, ◌≡◌, ◌≢◌, pos, List, some, length, get_elem?, int_half,
  ssize_half, mul_size,
}
use t_cnico_file_system_pt.State.Types.{
  State, TfsParams, Inode, t_directory, OpenFileEntry, AllocationState, taken, DirEntry,
}
use t_cnico_file_system_pt.State.Inodes.{max_dir_entries}
use t_cnico_file_system_pt.State.Dir.Listing.{IsTidy}
use t_cnico_file_system_pt.State.Dir.Laws.{IsDistinct}
use t_cnico_file_system_pt.State.Dir.Links.{Links, IsOneToOne}
use t_cnico_file_system_pt.State.Dir.Refine.{entries}

-- The tables have the sizes that the parameters say, and indices fit `int`.
pub record HasShape (s : State) : Type 0 where
  pub inodes : length s.inode_table ≡ s.max_inode_count
  pub inode_states : length s.freeinode_ts ≡ s.max_inode_count
  pub block_states : length s.free_blocks ≡ s.max_block_count
  pub open_files : length s.open_file_table ≡ s.max_open_files_count
  pub open_file_states : length s.free_open_file_entries ≡ s.max_open_files_count
  pub bytes : s.fs_data_size ≡ s.max_block_count * s.block_size
  pub some_bytes : 0 < s.block_size
  pub inodes_fit : s.max_inode_count ≤ int_half
  pub blocks_fit : s.max_block_count ≤ int_half
  pub bytes_fit : s.max_block_count * s.block_size < ssize_half

-- A file's inode: it has a block in range, not that of the root (`rb`), unless it is empty.
pub record IsFileInode (rb : ℕ) (p : TfsParams) (inode : Inode) : Type 0 where
  pub size_fits : inode.i_size ≤ p.block_size
  pub has_block :
      0 < inode.i_size → (b : ℕ) × (inode.i_data_block ≡ pos b) × (b < p.max_block_count) × (b ≢ rb)

-- An open file: its offset is in the block, and its inode is a file's, in use or not.
pub record IsOpenFile (rb : ℕ) (p : TfsParams) (table : List Inode) (e : OpenFileEntry)
    : Type 0 where
  pub inumber : ℕ
  pub is_inumber : e.of_inumber ≡ pos inumber
  pub not_root : inumber ≢ 0
  pub in_table : inumber < p.max_inode_count
  pub in_block : e.of_offset ≤ p.block_size
  pub inode : (v : Inode) → get_elem? table inumber ≡ some v → IsFileInode rb p v

-- The directory's list of entries.
pub record IsDirectory (states : List AllocationState) (es : List DirEntry) : Type 0 where
  pub tidy : IsTidy es
  pub distinct : IsDistinct es
  pub links : Links states es
  pub one_to_one : IsOneToOne es

abbrev pub root_inode : ℕ → TfsParams → Inode
root_inode rb p = record { i_node_type = t_directory; i_size = p.block_size; i_data_block = pos rb }

-- The offset of the root's entries in `fs_data`, and the entries.
abbrev pub root_offset : ℕ → State → ℕ
root_offset rb s = mul_size rb s.block_size

abbrev pub root_entries : ℕ → State → List DirEntry
root_entries rb s = entries s.fs_data (root_offset rb s) (max_dir_entries s)

-- The state between operations, with the root directory in the block `rb`.
pub record IsSound (rb : ℕ) (s : State) : Type 0 where
  pub shape : HasShape s
  pub root : get_elem? s.inode_table 0 ≡ some (root_inode rb s.params)
  pub root_taken : get_elem? s.freeinode_ts 0 ≡ some taken
  pub root_block : get_elem? s.free_blocks rb ≡ some taken
  pub files :
      (i : ℕ) (v : Inode)
      → i ≢ 0
      → get_elem? s.freeinode_ts i ≡ some taken
      → get_elem? s.inode_table i ≡ some v
      → IsFileInode rb s.params v
  pub open_files :
      (h : ℕ) (e : OpenFileEntry)
      → get_elem? s.free_open_file_entries h ≡ some taken
      → get_elem? s.open_file_table h ≡ some e
      → IsOpenFile rb s.params s.inode_table e
  pub directory : IsDirectory s.freeinode_ts (root_entries rb s)

pub root_inside : {rb : ℕ} {s : State} → IsSound rb s → rb < s.max_block_count
root_inside {rb} {s} ok =
    omega (arith, get_elem?_bound s.free_blocks rb taken ok.root_block, ok.shape.block_states)

pub root_in_table : {rb : ℕ} {s : State} → IsSound rb s → 0 < s.max_inode_count
root_in_table {rb} {s} ok =
    omega (arith, get_elem?_bound s.freeinode_ts 0 taken ok.root_taken, ok.shape.inode_states)
