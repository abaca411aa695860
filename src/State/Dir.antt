-- ===== src/State/Dir.antt =====
-- The directory functions of fs/state.c. The block of a directory is an array of `dir_entry_t` in
-- `fs_data`; the inode argument is the inode that the pointer stands for.
pub mod Links
pub mod Loops
pub mod Laws
pub mod Listing
pub mod Refine
use t_cnico_file_system_pt.Prelude.{
  ℕ, zero, suc, ◌+◌, ◌-◌, ◌++◌, ℤ, pos, minus_one, is_minus_one, List, [], ◌∷◌, Bool, true, false,
  ltb, leb, ◌==◌, if◌then◌else◌, length, replicate, not, ◌&&◌, ◌||◌,
}
use t_cnico_file_system_pt.State.Types.{
  Fs, Outcome, done, panic, fault, deadlock, pure, ◌>>=◌, commit, Inode, InodeType, t_file,
  t_directory, DirEntry, dir_entry_size, max_file_name,
}
use t_cnico_file_system_pt.State.Bytes.{
  Memory, peek, poke, peek_int, int_bytes, strncmp_eq, strcmp_eq, padded,
}
use t_cnico_file_system_pt.State.Tables.{data_block_get}
use t_cnico_file_system_pt.State.Inodes.{max_dir_entries}

-- `dir_entry[i]` at the offset `off`.
unfoldable pub peek_entry : Memory → ℕ → DirEntry
peek_entry m off = record { d_name = peek m off max_file_name; d_inumber = peek_int m (off + 40) }

-- The writes of `clear_dir_entry` to an entry.
unfoldable pub erase_entry : Memory → ℕ → Memory
erase_entry m off = poke (poke m (off + 40) (int_bytes minus_one)) off (replicate max_file_name 0)

-- The writes of `add_dir_entry` to an entry.
unfoldable pub fill_entry : Memory → ℕ → List ℕ → ℤ → Memory
fill_entry m off sub_name sub_inumber =
    poke (poke m (off + 40) (int_bytes sub_inumber)) off
      (padded (max_file_name - 1) sub_name ++ (0 ∷ []))

-- The loops take the rounds left, the size of `fs_data` and the offset of the entry. They return
-- the result with the memory.
unfoldable pub clear_loop : ℕ → ℕ → ℕ → Memory → List ℕ → Outcome (ℤ × Memory)
clear_loop zero size off m sub_name = done (minus_one, m)
clear_loop (suc rounds) size off m sub_name =
    let rest = clear_loop rounds size (off + dir_entry_size) m sub_name in
    if leb (off + dir_entry_size) size
    then elim (strcmp_eq (peek_entry m off).d_name sub_name) [
      | done b ↦ if b then done (pos 0, erase_entry m off) else rest
      | panic ↦ panic
      | fault ↦ fault
      | deadlock ↦ deadlock
    ]
    else fault

unfoldable pub add_loop : ℕ → ℕ → ℕ → Memory → List ℕ → ℤ → Outcome (ℤ × Memory)
add_loop zero size off m sub_name sub_inumber = done (minus_one, m)
add_loop (suc rounds) size off m sub_name sub_inumber =
    let rest = add_loop rounds size (off + dir_entry_size) m sub_name sub_inumber in
    if leb (off + dir_entry_size) size
    then if is_minus_one (peek_entry m off).d_inumber
      then done (pos 0, fill_entry m off sub_name sub_inumber)
      else rest
    else fault

unfoldable pub find_loop : ℕ → ℕ → ℕ → Memory → List ℕ → Outcome ℤ
find_loop zero size off m sub_name = done minus_one
find_loop (suc rounds) size off m sub_name =
    let rest = find_loop rounds size (off + dir_entry_size) m sub_name in
    let e = peek_entry m off in
    if leb (off + dir_entry_size) size
    then if not (is_minus_one e.d_inumber) && strncmp_eq max_file_name e.d_name sub_name
      then done e.d_inumber
      else rest
    else fault

abbrev pub is_directory : InodeType → Bool
is_directory t_directory = true
is_directory t_file = false

unfoldable pub clear_dir_entry : Inode → List ℕ → Fs ℤ
clear_dir_entry inode sub_name = if not (is_directory inode.i_node_type) then pure minus_one else do
  dir_entry ← data_block_get inode.i_data_block
  commit (λ s. clear_loop (max_dir_entries s) s.fs_data_size dir_entry s.fs_data sub_name)
      (λ s r. (r.0, record s { fs_data = r.1 }))

unfoldable pub add_dir_entry : Inode → List ℕ → ℤ → Fs ℤ
add_dir_entry inode sub_name sub_inumber =
    if length sub_name == 0 || ltb (max_file_name - 1) (length sub_name)
    then pure minus_one
    else if not (is_directory inode.i_node_type)
    then pure minus_one
    else do
      dir_entry ← data_block_get inode.i_data_block
      commit
          (λ s.
            add_loop (max_dir_entries s) s.fs_data_size dir_entry s.fs_data sub_name sub_inumber)
          (λ s r. (r.0, record s { fs_data = r.1 }))

unfoldable pub find_in_dir : Inode → List ℕ → Fs ℤ
find_in_dir inode sub_name = if not (is_directory inode.i_node_type) then pure minus_one else do
  dir_entry ← data_block_get inode.i_data_block
  commit (λ s. find_loop (max_dir_entries s) s.fs_data_size dir_entry s.fs_data sub_name)
      (λ s r. (r, s))
