-- ===== src/Operations/Transfer/WriteCall.antt =====
-- The ways in which `tfs_write` of fs/operations.c ends on an open handle.
pub mod Ends
use t_cnico_file_system_pt.Prelude.{
  ℕ, ◌+◌, ◌-◌, ◌*◌, ◌≤◌, ◌<◌, ◌≡◌, ◌≢◌, inl, inr, refl, sym, ◌∙◌, arith, ℤ, pos, minus_one,
  to_ssize, ssize_half, List, some, get_elem?, set, true, false, Bool-cases, get_elem?_bound,
  get_elem?-set_self, get_elem?-set_ne, length, if◌then◌else◌, take, min, ltb, length-take,
  length-set, ◌==◌,
}
use mathlib.Core.Path.{subst}
use t_cnico_file_system_pt.State.Types.{State, Outcome, done, Inode, OpenFileEntry, free, taken}
use t_cnico_file_system_pt.State.Bytes.{peek, peek-poke}
use t_cnico_file_system_pt.State.Tables.{get_open_file_entry, data_block_alloc}
use t_cnico_file_system_pt.State.Tables.FirstFree.{AllTaken}
use t_cnico_file_system_pt.Invariant.Defs.{root_entries, IsSound, IsFileInode, IsOpenFile}
use t_cnico_file_system_pt.Invariant.Changes.{set_inode, set_mutex, set_block_state}
use t_cnico_file_system_pt.Invariant.Calls.{
  inode_get-eq, store_inode-eq, data_block_alloc-eq, none_free, one_free, put_block,
}
use t_cnico_file_system_pt.Operations.Mutex.{locked-eq, unlock_and_return-eq}
use t_cnico_file_system_pt.Operations.Transfer.{
  write_block, write_first, write_nonempty, write_open, write_body, tfs_write, clip_write,
}
use t_cnico_file_system_pt.Operations.Transfer.Write.{
  IsWritable, wrote, write_block-eq, wrote-IsSound, block_size_fits, root_entries-poke,
}
use t_cnico_file_system_pt.Operations.Transfer.WriteCall.Ends.{
  IsHandle, Written, WrittenOver, WriteEnds, wrote-Written, nothing, no_space, written,
}

clip_write-eq :
    (block_size offset to_write : ℕ)
    → offset ≤ block_size
    → block_size < ssize_half
    → to_write < ssize_half
    → clip_write block_size offset to_write ≡ min to_write (block_size - offset)
unfolding clip_write
clip_write-eq block_size offset to_write p q r = ground arith

module _ {rb : ℕ} {s : State} (ok : IsSound rb s) {h i : ℕ} {e : OpenFileEntry} {v : Inode}
    (k : IsHandle rb s h e i v) where
  pub file : IsOpenFile rb s.params s.inode_table e
  file = ok.open_files h e k.opened k.entry

  same_inumber : file.inumber ≡ i
  same_inumber = ground (arith, file.is_inumber, k.inumber)

  pub handle_inode : IsFileInode rb s.params v
  handle_inode = file.inode v (rw same_inumber k.inode)

  pub handle_not_root : i ≢ 0
  handle_not_root = ground (arith, file.not_root, same_inumber)

  -- A file that is not empty has its block.
  pub writable : 0 < v.i_size → (b : ℕ) × IsWritable rb s h e i v b
  writable p =
      let (b, eq, l, ne) = handle_inode.has_block p in
      (
        b,
        record {
          opened = k.opened;
          entry = k.entry;
          inumber = k.inumber;
          not_root = handle_not_root;
          inode = k.inode;
          size_fits = handle_inode.size_fits;
          block = eq;
          block_in = l;
          not_root_block = ne;
        },
      )

  given : ℕ → Inode
  given b = record v { i_data_block = pos b }

  -- The state once the empty file has the block `b`.
  abbrev with_block : ℕ → State
  with_block b = record s {
    free_blocks = set s.free_blocks b taken;
    inode_table = set s.inode_table i (record v { i_data_block = pos b });
  }

  module _ (empty : v.i_size ≡ 0) (b : ℕ) (inside : b < s.max_block_count)
      (is_free : get_elem? s.free_blocks b ≡ some free) where
    not_root_block : b ≢ rb
    not_root_block same = ground (arith, ok.root_block)

    with_block-IsSound : IsSound rb (with_block b)
    with_block-IsSound =
        set_inode i _ handle_not_root
          (record { size_fits = handle_inode.size_fits; has_block = λ p. absurd (omega arith) })
          (set_block_state b taken not_root_block ok)

    with_block-IsWritable : IsWritable rb (with_block b) h e i (record v { i_data_block = pos b }) b
    with_block-IsWritable = record {
      opened = k.opened;
      entry = k.entry;
      inumber = k.inumber;
      not_root = handle_not_root;
      inode = get_elem?-set_self s.inode_table i _ (get_elem?_bound s.inode_table i v k.inode);
      size_fits = handle_inode.size_fits;
      block = refl;
      block_in = inside;
      not_root_block = not_root_block;
    }

  Written-with_block :
      (b : ℕ) (bs : List ℕ) (s' : State)
      → v.i_size ≡ 0
      → WrittenOver s.free_blocks rb (with_block b) h e i (record v { i_data_block = pos b }) bs s'
      → Written rb s h e i v bs s'
  Written-with_block b bs s' empty z = record {
    sound = z.sound;
    unlocked = z.unlocked;
    block = z.block;
    inode = z.inode;
    at_inumber = z.at_inumber;
    in_block = z.in_block;
    size = z.size;
    offset = z.offset;
    bytes = z.bytes;
    other_bytes = z.other_bytes;
    takes = z.takes;
    same_block = λ p. absurd (omega (arith, p, empty));
    states = z.states;
    params = z.params;
    listed = z.listed;
    other_files = z.other_files;
    other_inodes = λ j ne. z.other_inodes j ne ∙ get_elem?-set_ne s.inode_table _ ne;
  }

  write_first-eq :
      (buffer : List ℕ) (n : ℕ) (b : ℕ)
      → b < s.max_block_count
      → data_block_alloc s ≡ done (pos b, put_block b s)
      → write_first (pos h) (pos i) buffer n s ≡ write_block (pos h) (pos i) buffer n (with_block b)
  unfolding write_first
  write_first-eq buffer n b l eq = ground (
    arith,
    k.inode,
    eq,
    store_inode-eq {s = put_block b s} (omega (arith, ok.shape, length-set s.free_blocks b taken)) i
        (record v { i_data_block = pos b }),
    get_elem?_bound s.inode_table i v k.inode,
    ok.shape.inodes,
  )

  write_first_full :
      (buffer : List ℕ) (n : ℕ)
      → data_block_alloc s ≡ done (minus_one, s)
      → write_first (pos h) (pos i) buffer n s ≡ done (minus_one, record s { mutex_locked = false })
  unfolding write_first
  write_first_full buffer n eq =
      ground (arith, k.inode, eq, unlock_and_return-eq {A = ℤ} minus_one minus_one s)

  -- The write once the number of bytes is known to fit the block.
  write_nonempty-WriteEnds :
      (buffer : List ℕ) (n : ℕ)
      → 0 < n
      → n ≤ length buffer
      → e.of_offset + n ≤ s.block_size
      → WriteEnds rb s h e i v buffer n (write_nonempty (pos h) (pos i) buffer n s)
  unfolding write_nonempty
  write_nonempty-WriteEnds buffer n p l fits = elim (Bool-cases (v.i_size == 0)) [
    | inr q ↦
        let (b, w) = writable (ground arith) in
        written _ p (ground (arith, k.inode, write_block-eq ok w buffer n l fits)) (
          wrote-Written ok w s.free_blocks (inl (ground arith, refl)) (take n buffer)
            (omega (arith, length-take n buffer)) (omega (arith, length-take n buffer)))
    | inl q ↦ elim (data_block_alloc-eq ok.shape) [
      | none_free eq all ↦
          no_space p (ground arith) all (ground (arith, k.inode, write_first_full buffer n eq))
      | one_free b inside is_free before eq ↦
          let ok' = with_block-IsSound (ground arith) b inside is_free in
          let w = with_block-IsWritable (ground arith) b inside is_free in
          written _ p
            (ground (
              arith,
              k.inode,
              write_first-eq buffer n b inside eq,
              write_block-eq ok' w buffer n l fits,
            ))
            (Written-with_block b (take n buffer) _ (ground arith) (
              wrote-Written ok' w s.free_blocks (inr (ground arith, is_free, before, refl))
                (take n buffer) (omega (arith, length-take n buffer))
                (omega (arith, length-take n buffer))))
    ]
  ]

  -- How many bytes a write of `to_write` takes.
  abbrev room_for : ℕ → ℕ
  room_for to_write = min to_write (s.block_size - e.of_offset)

  write_open-eq :
      (buffer : List ℕ) (to_write : ℕ)
      → to_write < ssize_half
      → write_open (pos h) buffer to_write s ≡ (
          if ltb 0 (room_for to_write)
          then write_nonempty (pos h) (pos i) buffer (room_for to_write) s
          else done (pos 0, record s { mutex_locked = false }))
  unfolding write_open
  write_open-eq buffer to_write small = ground (
    arith,
    k.entry,
    k.inumber,
    inode_get-eq ok.shape i in_table,
    clip_write-eq s.block_size e.of_offset to_write file.in_block (block_size_fits ok) small,
    unlock_and_return-eq {A = ℤ} minus_one (to_ssize (room_for to_write)) s,
  )
    where
      in_table : i < s.max_inode_count
      in_table = omega (arith, get_elem?_bound s.inode_table i v k.inode, ok.shape.inodes)

  write_open-WriteEnds :
      (buffer : List ℕ) (to_write : ℕ)
      → to_write ≤ length buffer
      → length buffer < ssize_half
      → WriteEnds rb s h e i v buffer (room_for to_write) (write_open (pos h) buffer to_write s)
  write_open-WriteEnds buffer to_write l small = elim (Bool-cases (ltb 0 (room_for to_write))) [
    | inl p ↦
        subst (WriteEnds rb s h e i v buffer (room_for to_write))
          (sym (write_open-eq buffer to_write (omega arith) ∙ rw p refl))
          (write_nonempty-WriteEnds buffer (room_for to_write) (ground arith) (omega arith)
            (omega (arith, file.in_block)))
    | inr p ↦ nothing (ground arith) (write_open-eq buffer to_write (omega arith) ∙ rw p refl)
  ]

  pub get_open_file_entry-eq : get_open_file_entry (pos h) s ≡ done (some (pos h), s)
  unfolding get_open_file_entry
  get_open_file_entry-eq = ground (
    arith,
    k.opened,
    get_elem?_bound s.free_open_file_entries h taken k.opened,
    ok.shape.open_file_states,
  )

  write_body-eq :
      (buffer : List ℕ) (to_write : ℕ)
      → write_body (pos h) buffer to_write s ≡ write_open (pos h) buffer to_write s
  unfolding write_body
  write_body-eq buffer to_write = ground (arith, get_open_file_entry-eq)

-- Between operations, a `tfs_write` through an open handle, of a buffer that holds `to_write` bytes
-- and is smaller than half the range of `size_t`, ends in one of three ways, with as many bytes
-- `n` as fit the block behind the handle's offset. If `n` is 0 it returns 0; if the file is empty
-- and all blocks are taken it returns -1; both change nothing and release the mutex. Otherwise it
-- returns `n`: the first `n` bytes of the buffer stand in the file's block at the old offset, the
-- offset has grown by `n`, the size is the greater of the old size and the new offset, the mutex
-- is free and the invariant holds. An empty file has then been given the first block that was free,
-- which is now taken; a file that was not empty keeps its block; and no other block has changed its
-- state. The other bytes of the memory, the directory, the other inodes' fields and the other handles
-- are as before.
pub tfs_write-WriteEnds :
    {rb : ℕ} {s : State} {h i : ℕ} {e : OpenFileEntry} {v : Inode}
    → IsSound rb s
    → s.mutex_locked ≡ false
    → IsHandle rb s h e i v
    → (buffer : List ℕ) (to_write : ℕ) → to_write ≤ length buffer
    → length buffer < ssize_half
    → WriteEnds rb s h e i v buffer
        (min to_write (s.block_size - e.of_offset))
        (tfs_write (pos h) buffer to_write s)
unfolding tfs_write
tfs_write-WriteEnds {rb} {s} {h} {i} {e} {v} ok unheld k buffer to_write l small =
    subst (WriteEnds rb s h e i v buffer (min to_write (s.block_size - e.of_offset)))
      (sym (
        locked-eq {A = ℤ} minus_one (write_body (pos h) buffer to_write) s unheld
        ∙ write_body-eq ok' k' buffer to_write))
      (unlocked (write_open-WriteEnds ok' k' buffer to_write l small))
  where
    ok' : IsSound rb (record s { mutex_locked = true })
    ok' = set_mutex true ok

    k' : IsHandle rb (record s { mutex_locked = true }) h e i v
    k' = record { opened = k.opened; entry = k.entry; inumber = k.inumber; inode = k.inode }

    unlocked :
        {n : ℕ} {o : Outcome (ℤ × State)}
        → WriteEnds rb (record s { mutex_locked = true }) h e i v buffer n o
        → WriteEnds rb s h e i v buffer n o
    unlocked (nothing z eq) = nothing z eq
    unlocked (no_space p z all eq) = no_space p z all eq
    unlocked (written s' p eq z) = written s' p eq (record {
      sound = z.sound;
      unlocked = z.unlocked;
      block = z.block;
      inode = z.inode;
      at_inumber = z.at_inumber;
      in_block = z.in_block;
      size = z.size;
      offset = z.offset;
      bytes = z.bytes;
      other_bytes = z.other_bytes;
      takes = z.takes;
      same_block = z.same_block;
      states = z.states;
      params = z.params;
      listed = z.listed;
      other_files = z.other_files;
      other_inodes = z.other_inodes;
    })
