-- ===== src/Operations/Transfer/Read/Stale.antt =====
-- `tfs_read` of fs/operations.c through a handle whose file another handle has truncated.
use t_cnico_file_system_pt.Prelude.{
  ℕ, ◌+◌, ◌*◌, ◌≤◌, ◌<◌, ◌≡◌, ◌≢◌, ◌∙◌, arith, ℤ, pos, minus_one, List, [], false, true, ssize_half,
  get_elem?_bound,
}
use t_cnico_file_system_pt.State.Types.{State, done, Inode, OpenFileEntry}
use t_cnico_file_system_pt.State.Bytes.{peek}
use t_cnico_file_system_pt.Invariant.Defs.{IsSound}
use t_cnico_file_system_pt.Invariant.Calls.{inode_get-eq}
use t_cnico_file_system_pt.Invariant.Changes.{set_mutex}
use t_cnico_file_system_pt.Operations.Mutex.{locked-eq}
use t_cnico_file_system_pt.Operations.Transfer.{
  tfs_read, read_body, read_open, read_block, clip_read,
}
use t_cnico_file_system_pt.Operations.Transfer.Read.{moved_on, read_block-eq, read_body-eq}
use t_cnico_file_system_pt.Operations.Transfer.Write.{IsWritable, block_size_fits}
use t_cnico_file_system_pt.Operations.Transfer.WriteCall.Ends.{IsHandle}

-- The difference wraps, and clips nothing.
clip_read-stale :
    (i_size offset len : ℕ)
    → i_size < offset
    → offset + len < ssize_half
    → clip_read i_size offset len ≡ len
unfolding clip_read
clip_read-stale i_size offset len p q = ground arith

module _ {rb : ℕ} {s : State} (ok : IsSound rb s) {h i : ℕ} {e : OpenFileEntry} {v : Inode}
    (k : IsHandle rb s h e i v) (b len : ℕ) (at : v.i_data_block ≡ pos b)
    (inside : b < s.max_block_count) (not_root_block : b ≢ rb) (short : v.i_size < e.of_offset)
    (some_bytes : 0 < len) (fits : e.of_offset + len ≤ s.block_size) where
  stale : IsWritable rb s h e i v b
  stale =
      let o = ok.open_files h e k.opened k.entry in
      record {
        opened = k.opened;
        entry = k.entry;
        inumber = k.inumber;
        not_root = λ z. o.not_root (ground (arith, z, o.is_inumber, k.inumber));
        inode = k.inode;
        size_fits = omega arith;
        block = at;
        block_in = inside;
        not_root_block = not_root_block;
      }

  read_open-stale : read_open (pos h) len s ≡ read_block (pos h) e v len s
  unfolding read_open
  read_open-stale = ground (
    arith,
    k.entry,
    k.inumber,
    k.inode,
    inode_get-eq ok.shape i
        (omega (arith, get_elem?_bound s.inode_table i v k.inode, ok.shape.inodes)),
    clip_read-stale v.i_size e.of_offset len short (omega (arith, block_size_fits ok)),
  )

-- Between operations, let an open handle stand past the end of its file, whose inode still names a
-- block in range other than the root's. A `tfs_read` of a positive number of bytes that stay inside
-- the block then returns that number, with the bytes of that block behind the end of the file.
pub tfs_read-past_end :
    {rb : ℕ} {s : State} {h i : ℕ} {e : OpenFileEntry} {v : Inode} (b len : ℕ)
    → IsSound rb s
    → s.mutex_locked ≡ false
    → IsHandle rb s h e i v
    → v.i_data_block ≡ pos b
    → b < s.max_block_count
    → b ≢ rb
    → v.i_size < e.of_offset
    → 0 < len
    → e.of_offset + len ≤ s.block_size
    → tfs_read (pos h) len s
      ≡ done ((pos len, peek s.fs_data (b * s.block_size + e.of_offset) len), moved_on s h e len)
unfolding tfs_read
tfs_read-past_end {rb} {s} {h} {i} {e} {v} b len ok unheld k at inside nr short some_bytes fits =
    locked-eq {A = ℤ × List ℕ} (minus_one, []) (read_body (pos h) len) s unheld
    ∙ read_body-eq ok' k' len
    ∙ read_open-stale ok' k' b len at inside nr short some_bytes fits
    ∙ read_block-eq ok' k' b len (stale ok' k' b len at inside nr short some_bytes fits) fits
  where
    ok' : IsSound rb (record s { mutex_locked = true })
    ok' = set_mutex true ok

    k' : IsHandle rb (record s { mutex_locked = true }) h e i v
    k' = record { opened = k.opened; entry = k.entry; inumber = k.inumber; inode = k.inode }
