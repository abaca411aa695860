-- ===== src/Operations/Transfer/Write.antt =====
-- What `tfs_write` of fs/operations.c writes and returns, and that it keeps the invariant.
use t_cnico_file_system_pt.Prelude.{
  ℕ, ◌+◌, ◌*◌, ◌≤◌, ◌<◌, ◌≡◌, ◌≢◌, inl, inr, sym, arith, pos, ssize_half, List, some, get_elem?,
  set, false, Bool-cases, get_elem?_bound, length, if◌then◌else◌, take, ltb, length-take,
}
use mathlib.Core.Path.{subst}
use t_cnico_file_system_pt.State.Types.{State, done, Inode, OpenFileEntry, taken}
use t_cnico_file_system_pt.State.Bytes.{poke}
use t_cnico_file_system_pt.State.Inodes.{store_inode}
use t_cnico_file_system_pt.State.Dir.Refine.{entries-poke}
use t_cnico_file_system_pt.Invariant.Defs.{
  IsSound, IsFileInode, IsOpenFile, IsDirectory, root_entries, root_inside,
}
use t_cnico_file_system_pt.Invariant.Changes.{set_data, set_inode, set_open_file}
use t_cnico_file_system_pt.Invariant.Calls.{data_block_get-eq}
use t_cnico_file_system_pt.Invariant.Root.{block_in_data, mul-bound}
use t_cnico_file_system_pt.Operations.Mutex.{unlock_and_return}
use t_cnico_file_system_pt.Operations.Transfer.{memcpy_to, store_open_file, advance, write_block}

module _ {rb : ℕ} {s : State} (ok : IsSound rb s) where
  -- A block of the table is smaller than half the range of `size_t`.
  pub block_size_fits : s.block_size < ssize_half
  block_size_fits =
      omega (
        arith,
        ok.shape,
        mul-bound 0 s.max_block_count s.block_size (omega (arith, root_inside ok)),
      )

  -- A write to a block that is not the root's leaves the directory's entries.
  pub root_entries-poke :
      (b off : ℕ) (bs : List ℕ)
      → b ≢ rb
      → off + length bs ≤ s.block_size
      → root_entries rb (record s { fs_data = poke s.fs_data (b * s.block_size + off) bs })
        ≡ root_entries rb s
  root_entries-poke b off bs ne fits =
      entries-poke s.fs_data (b * s.block_size + off) bs _ _ (elim (Bool-cases (ltb b rb)) [
        | inl p ↦ inr (
            omega (
              arith,
              block_in_data ok.shape rb (root_inside ok),
              mul-bound b rb s.block_size (ground arith),
            ))
        | inr p ↦ inl (
            omega (
              arith,
              block_in_data ok.shape rb (root_inside ok),
              mul-bound rb b s.block_size (ground arith),
            ))
      ])

-- The inode table after a write up to `size`.
abbrev pub grown : State → ℕ → Inode → ℕ → List Inode
grown s i v size =
    if ltb v.i_size size then set s.inode_table i (record v { i_size = size }) else s.inode_table

-- The state after a write of `bs` through the handle `h`.
abbrev pub wrote : State → ℕ → OpenFileEntry → ℕ → Inode → ℕ → List ℕ → State
wrote s h e i v b bs = record s {
  fs_data = poke s.fs_data (b * s.block_size + e.of_offset) bs;
  open_file_table = set s.open_file_table h (record e { of_offset = e.of_offset + length bs });
  inode_table = grown s i v (e.of_offset + length bs);
}

-- An open handle, its entry, and the inode behind it with its block.
pub record IsWritable (rb : ℕ) (s : State) (h : ℕ) (e : OpenFileEntry) (i : ℕ) (v : Inode) (b : ℕ)
    : Type 0 where
  pub opened : get_elem? s.free_open_file_entries h ≡ some taken
  pub entry : get_elem? s.open_file_table h ≡ some e
  pub inumber : e.of_inumber ≡ pos i
  pub not_root : i ≢ 0
  pub inode : get_elem? s.inode_table i ≡ some v
  pub size_fits : v.i_size ≤ s.block_size
  pub block : v.i_data_block ≡ pos b
  pub block_in : b < s.max_block_count
  pub not_root_block : b ≢ rb

advance-eq :
    (t : State) (h i : ℕ) (e : OpenFileEntry) (v : Inode) (n : ℕ)
    → h < length t.open_file_table
    → get_elem? t.inode_table i ≡ some v
    → e.of_offset + n < ssize_half
    → advance (pos h) (pos i) e n t
      ≡ done (
        pos n,
        record t {
          open_file_table = set t.open_file_table h (record e { of_offset = e.of_offset + n });
          inode_table = grown t i v (e.of_offset + n);
          mutex_locked = false;
        },
      )
unfolding advance store_open_file store_inode unlock_and_return
advance-eq t h i e v n p at l = ground (arith, get_elem?_bound t.inode_table i v at)

memcpy_to-eq :
    (t : State) (dest : ℕ) (buffer : List ℕ) (n : ℕ)
    → n ≤ length buffer
    → dest + n ≤ t.fs_data_size
    → memcpy_to dest buffer n t
      ≡ done (tt, record t { fs_data = poke t.fs_data dest (take n buffer) })
unfolding memcpy_to
memcpy_to-eq t dest buffer n p q = ground arith

module _ {rb : ℕ} {s : State} (ok : IsSound rb s) {h i b : ℕ} {e : OpenFileEntry} {v : Inode}
    (w : IsWritable rb s h e i v b) where
  pub write_block-eq :
      (buffer : List ℕ) (n : ℕ)
      → n ≤ length buffer
      → e.of_offset + n ≤ s.block_size
      → write_block (pos h) (pos i) buffer n s
        ≡ done (pos n, record (wrote s h e i v b (take n buffer)) { mutex_locked = false })
  unfolding write_block
  write_block-eq buffer n l fits =
      let inside = block_in_data ok.shape b w.block_in in
      let dest = b * s.block_size + e.of_offset in
      let small = block_size_fits ok in
      let taken_n : length (take n buffer) ≡ n = omega (arith, length-take n buffer) in
      rw taken_n (
        ground (
          arith,
          data_block_get-eq ok.shape b w.block_in,
          inside.0,
          memcpy_to-eq s dest buffer n l (omega (arith, inside)),
          advance-eq (record s { fs_data = poke s.fs_data dest (take n buffer) }) h i e v n
              (get_elem?_bound s.open_file_table h e w.entry) w.inode (omega arith),
        ))

  pub wrote-IsSound :
      (bs : List ℕ)
      → 0 < length bs
      → e.of_offset + length bs ≤ s.block_size
      → IsSound rb (wrote s h e i v b bs)
  wrote-IsSound bs p fits = elim (Bool-cases (ltb v.i_size (e.of_offset + length bs))) [
    | inl q ↦
        rw q
          (set_open_file h _ moved_in (set_data _ directory (set_inode i _ w.not_root larger ok)))
    | inr q ↦ rw q (set_open_file h _ moved (set_data _ directory ok))
  ]
    where
      larger : IsFileInode rb s.params (record v { i_size = e.of_offset + length bs })
      larger = record {
        size_fits = fits;
        has_block = λ h. (b, w.block, w.block_in, w.not_root_block);
      }

      directory : IsDirectory s.freeinode_ts (
          root_entries rb
            (record s { fs_data = poke s.fs_data (b * s.block_size + e.of_offset) bs }))
      directory =
          subst (IsDirectory s.freeinode_ts)
            (sym (root_entries-poke ok b e.of_offset bs w.not_root_block fits)) ok.directory

      old : IsOpenFile rb s.params s.inode_table e
      old = ok.open_files h e w.opened w.entry

      moved :
          IsOpenFile rb s.params s.inode_table (record e { of_offset = e.of_offset + length bs })
      moved = record {
        inumber = old.inumber;
        is_inumber = old.is_inumber;
        not_root = old.not_root;
        in_table = old.in_table;
        in_block = fits;
        inode = old.inode;
      }

      moved_in :
          IsOpenFile rb s.params
            (set s.inode_table i (record v { i_size = e.of_offset + length bs }))
            (record e { of_offset = e.of_offset + length bs })
      moved_in =
          let o = (set_inode i _ w.not_root larger ok).open_files h e w.opened w.entry in
          record {
            inumber = o.inumber;
            is_inumber = o.is_inumber;
            not_root = o.not_root;
            in_table = o.in_table;
            in_block = fits;
            inode = o.inode;
          }
