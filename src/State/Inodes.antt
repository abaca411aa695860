-- ===== src/State/Inodes.antt =====
-- The inode functions of fs/state.c. A pointer to an inode is its inumber.
use t_cnico_file_system_pt.Prelude.{
  ℕ, zero, suc, ◌+◌, ℤ, minus_one, is_minus_one, to_int, ltb, leb, if◌then◌else◌, ◌/◌,
}
use t_cnico_file_system_pt.State.Types.{
  State, Fs, Outcome, done, fault, pure, ◌>>=◌, ◌>>◌, always_assert, gets, commit, free, Inode,
  InodeType, t_file, t_directory, dir_entry_size,
}
use t_cnico_file_system_pt.State.Bytes.{Memory, poke, int_bytes}
use t_cnico_file_system_pt.State.Tables.{
  valid_inumber, load_from, write_at, alloc_loop, modulo_faults, found_index, is_taken,
  data_block_alloc, data_block_free, data_block_get,
}

unfoldable pub inode_alloc : Fs ℤ
inode_alloc s =
    if modulo_faults s.max_inode_count s.block_size
    then fault
    else commit (λ s. alloc_loop s.max_inode_count 0 s.freeinode_ts)
        (λ s r. (found_index to_int r.0, record s { freeinode_ts = r.1 })) s

-- `inode_table[inumber]`, read and written.
abbrev pub load_inode : ℤ → Fs Inode
load_inode = load_from (λ s. s.inode_table)

unfoldable pub store_inode : ℤ → Inode → Fs (Unit {0})
store_inode inumber inode =
    commit (λ s. write_at s.inode_table inumber inode) (λ s t. (tt, record s { inode_table = t }))

unfoldable pub store_freeinode : ℤ → Fs (Unit {0})
store_freeinode inumber =
    commit (λ s. write_at s.freeinode_ts inumber free) (λ s t. (tt, record s { freeinode_ts = t }))

unfoldable pub inode_delete : ℤ → Fs (Unit {0})
unfolding valid_inumber
inode_delete inumber = do
  s ← gets λ s. s
  always_assert (valid_inumber s inumber)
  a ← load_from (λ s. s.freeinode_ts) inumber
  always_assert (is_taken a)
  inode ← load_inode inumber
  if ltb 0 inode.i_size then data_block_free inode.i_data_block else pure tt
  store_freeinode inumber

unfoldable pub inode_get : ℤ → Fs ℤ
unfolding valid_inumber
inode_get inumber = do s ← gets λ s. s; always_assert (valid_inumber s inumber); pure inumber

-- The loop that labels the entries of a new directory with -1, `rounds` entries from `off` on.
unfoldable pub label_entries : ℕ → ℕ → ℕ → Memory → Outcome Memory
label_entries zero size off m = done m
label_entries (suc rounds) size off m =
    if leb (off + dir_entry_size) size
    then label_entries rounds size (off + dir_entry_size) (poke m (off + 40) (int_bytes minus_one))
    else fault

-- `MAX_DIR_ENTRIES`
abbrev pub max_dir_entries : State → ℕ
max_dir_entries s = s.block_size / dir_entry_size

unfoldable pub init_directory : ℤ → Fs (Unit {0})
init_directory b = do
  dir_entry ← data_block_get b
  commit (λ s. label_entries (max_dir_entries s) s.fs_data_size dir_entry s.fs_data)
      (λ s m. (tt, record s { fs_data = m }))

-- `T_DIRECTORY` of the switch in `inode_create`.
unfoldable pub create_directory : ℤ → Fs ℤ
create_directory inumber = do
  b ← data_block_alloc
  inode ← load_inode inumber
  if is_minus_one b
      then (do
        store_inode inumber (record inode { i_size = 0; i_data_block = minus_one })
        inode_delete inumber
        pure minus_one)
      else do
        s ← gets λ s. s
        store_inode inumber (record inode { i_size = s.block_size; i_data_block = b })
        init_directory b
        pure inumber

-- `T_FILE`.
unfoldable pub create_file : ℤ → Fs ℤ
create_file inumber = do
  inode ← load_inode inumber
  store_inode inumber (record inode { i_size = 0; i_data_block = minus_one })
  pure inumber

abbrev pub create_by_type : InodeType → ℤ → Fs ℤ
create_by_type t_directory inumber = create_directory inumber
create_by_type t_file inumber = create_file inumber

unfoldable pub inode_create : InodeType → Fs ℤ
inode_create i_type = do
  inumber ← inode_alloc
  if is_minus_one inumber then pure minus_one else do
    inode ← load_inode inumber
    store_inode inumber (record inode { i_node_type = i_type })
    create_by_type i_type inumber
