-- ===== src/Operations/Transfer.antt =====
-- `tfs_write` and `tfs_read` of fs/operations.c. A buffer is the list of its bytes.
pub mod WriteCall
pub mod Read
pub mod RoundTrip
pub mod Append
pub mod Write
use t_cnico_file_system_pt.Prelude.{
  ℕ, ◌+◌, ℤ, minus_one, is_minus_one, add_size, sub_size, to_ssize, List, [], ltb, leb, ◌==◌, ◌&&◌,
  if◌then◌else◌, length, take, none, some,
}
use t_cnico_file_system_pt.State.Types.{
  Fs, done, fault, pure, ◌>>=◌, ◌>>◌, gets, commit, Inode, OpenFileEntry,
}
use t_cnico_file_system_pt.State.Bytes.{peek, poke}
use t_cnico_file_system_pt.State.Tables.{
  load_from, write_at, data_block_alloc, data_block_get, get_open_file_entry,
}
use t_cnico_file_system_pt.State.Inodes.{load_inode, store_inode, inode_get}
use t_cnico_file_system_pt.Operations.Mutex.{locked, unlock_and_return}

-- `*file`, read and written.
abbrev pub load_open_file : ℤ → Fs OpenFileEntry
load_open_file = load_from (λ s. s.open_file_table)

unfoldable pub store_open_file : ℤ → OpenFileEntry → Fs (Unit {0})
store_open_file file e =
    commit (λ s. write_at s.open_file_table file e) (λ s t. (tt, record s { open_file_table = t }))

-- `memcpy` into `fs_data`, undefined past the end of either array.
unfoldable pub memcpy_to : ℕ → List ℕ → ℕ → Fs (Unit {0})
memcpy_to dest buffer n s =
    if leb n (length buffer) && leb (dest + n) s.fs_data_size
    then done (tt, record s { fs_data = poke s.fs_data dest (take n buffer) })
    else fault

-- `memcpy` out of `fs_data`.
unfoldable pub memcpy_from : ℕ → ℕ → Fs (List ℕ)
memcpy_from source n s =
    if leb (source + n) s.fs_data_size then done (peek s.fs_data source n, s) else fault

-- After the bytes: the offset and the size are moved on.
unfoldable pub advance : ℤ → ℤ → OpenFileEntry → ℕ → Fs ℤ
advance file inum entry to_write = do
  let offset = add_size entry.of_offset to_write
  store_open_file file (record entry { of_offset = offset })
  inode ← load_inode inum
  if ltb inode.i_size offset then store_inode inum (record inode { i_size = offset }) else pure tt
  unlock_and_return minus_one (to_ssize to_write)

-- A write of `to_write > 0` bytes, once the inode has its block.
unfoldable pub write_block : ℤ → ℤ → List ℕ → ℕ → Fs ℤ
write_block file inum buffer to_write = do
  inode ← load_inode inum
  block ← data_block_get inode.i_data_block
  entry ← load_open_file file
  memcpy_to (block + entry.of_offset) buffer to_write
  advance file inum entry to_write

-- A write to an empty file: it is given a block first.
unfoldable pub write_first : ℤ → ℤ → List ℕ → ℕ → Fs ℤ
write_first file inum buffer to_write = do
  inode ← load_inode inum
  bnum ← data_block_alloc
  if is_minus_one bnum then unlock_and_return minus_one minus_one else do
    store_inode inum (record inode { i_data_block = bnum })
    write_block file inum buffer to_write

unfoldable pub write_nonempty : ℤ → ℤ → List ℕ → ℕ → Fs ℤ
write_nonempty file inum buffer to_write = do
  inode ← load_inode inum
  if inode.i_size == 0
      then write_first file inum buffer to_write
      else write_block file inum buffer to_write

-- How many bytes are written, of a block with room for `block_size`.
unfoldable pub clip_write : ℕ → ℕ → ℕ → ℕ
clip_write block_size offset to_write =
    if ltb block_size (add_size to_write offset) then sub_size block_size offset else to_write

unfoldable pub write_open : ℤ → List ℕ → ℕ → Fs ℤ
write_open file buffer to_write = do
  entry ← load_open_file file
  inum ← inode_get entry.of_inumber
  s ← gets λ s. s
  let n = clip_write s.block_size entry.of_offset to_write
  if ltb 0 n then write_nonempty file inum buffer n else unlock_and_return minus_one (to_ssize n)

unfoldable pub write_body : ℤ → List ℕ → ℕ → Fs ℤ
write_body fhandle buffer to_write = do
  file ← get_open_file_entry fhandle
  elim file [ none ↦ unlock_and_return minus_one minus_one | some p ↦ write_open p buffer to_write ]

unfoldable pub tfs_write : ℤ → List ℕ → ℕ → Fs ℤ
tfs_write fhandle buffer to_write = locked minus_one (write_body fhandle buffer to_write)

-- How many bytes are read, of a file with `i_size` bytes.
unfoldable pub clip_read : ℕ → ℕ → ℕ → ℕ
clip_read i_size offset len =
    let to_read = sub_size i_size offset in if ltb len to_read then len else to_read

-- The result of a read is the number returned with the bytes copied to the buffer.
unfoldable pub read_block : ℤ → OpenFileEntry → Inode → ℕ → Fs (ℤ × List ℕ)
read_block file entry inode to_read = do
  block ← data_block_get inode.i_data_block
  bytes ← memcpy_from (block + entry.of_offset) to_read
  store_open_file file (record entry { of_offset = add_size entry.of_offset to_read })
  unlock_and_return (minus_one, bytes) (to_ssize to_read, bytes)

unfoldable pub read_open : ℤ → ℕ → Fs (ℤ × List ℕ)
read_open file len = do
  entry ← load_open_file file
  inum ← inode_get entry.of_inumber
  inode ← load_inode inum
  let to_read = clip_read inode.i_size entry.of_offset len
  if ltb 0 to_read
      then read_block file entry inode to_read
      else unlock_and_return (minus_one, []) (to_ssize to_read, [])

unfoldable pub read_body : ℤ → ℕ → Fs (ℤ × List ℕ)
read_body fhandle len = do
  file ← get_open_file_entry fhandle
  elim file [ none ↦ unlock_and_return (minus_one, []) (minus_one, []) | some p ↦ read_open p len ]

unfoldable pub tfs_read : ℤ → ℕ → Fs (ℤ × List ℕ)
tfs_read fhandle len = locked (minus_one, []) (read_body fhandle len)
