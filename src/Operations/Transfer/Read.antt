-- ===== src/Operations/Transfer/Read.antt =====
-- What `tfs_read` of fs/operations.c reads and returns on an open handle.
pub mod Stale
use t_cnico_file_system_pt.Prelude.{
  ℕ, ◌+◌, ◌-◌, ◌*◌, ◌≤◌, ◌<◌, ◌≡◌, inl, inr, refl, sym, ◌∙◌, arith, ℤ, pos, minus_one, ssize_half,
  List, [], set, true, false, Bool-cases, get_elem?_bound, if◌then◌else◌, min, ltb,
}
use mathlib.Core.Path.{subst}
use t_cnico_file_system_pt.State.Types.{State, Outcome, done, Inode, OpenFileEntry}
use t_cnico_file_system_pt.State.Bytes.{peek}
use t_cnico_file_system_pt.Invariant.Defs.{IsSound, IsOpenFile}
use t_cnico_file_system_pt.Invariant.Changes.{set_open_file, set_mutex}
use t_cnico_file_system_pt.Invariant.Calls.{inode_get-eq, data_block_get-eq}
use t_cnico_file_system_pt.Invariant.Root.{block_in_data}
use t_cnico_file_system_pt.Operations.Mutex.{locked-eq, unlock_and_return}
use t_cnico_file_system_pt.Operations.Transfer.{
  memcpy_from, store_open_file, clip_read, read_block, read_open, read_body, tfs_read,
}
use t_cnico_file_system_pt.Operations.Transfer.Write.{IsWritable, block_size_fits}
use t_cnico_file_system_pt.Operations.Transfer.WriteCall.{
  handle_inode, writable, get_open_file_entry-eq,
}
use t_cnico_file_system_pt.Operations.Transfer.WriteCall.Ends.{IsHandle}

-- The state once `n` bytes are read through the handle.
abbrev pub moved_on : State → ℕ → OpenFileEntry → ℕ → State
moved_on s h e n = record s {
  open_file_table = set s.open_file_table h (record e { of_offset = e.of_offset + n });
  mutex_locked = false;
}

-- The ways in which a read of `n` bytes ends: none are left, or they come from the file's block.
pub data ReadEnds (rb : ℕ) (s : State) (h : ℕ) (e : OpenFileEntry) (v : Inode) (n : ℕ)
    (o : Outcome ((ℤ × List ℕ) × State)) : Type 0 where
  at_end :
      n ≡ 0 → o ≡ done ((pos 0, []), record s { mutex_locked = false }) → ReadEnds rb s h e v n o
  copied :
      (b : ℕ)
      → 0 < n
      → v.i_data_block ≡ pos b
      → o ≡ done ((pos n, peek s.fs_data (b * s.block_size + e.of_offset) n), moved_on s h e n)
      → IsSound rb (moved_on s h e n)
      → ReadEnds rb s h e v n o

clip_read-eq :
    (i_size offset len : ℕ)
    → offset ≤ i_size
    → i_size < ssize_half
    → clip_read i_size offset len ≡ min len (i_size - offset)
unfolding clip_read
clip_read-eq i_size offset len p q = ground arith

memcpy_from-eq :
    (s : State) (source n : ℕ)
    → source + n ≤ s.fs_data_size
    → memcpy_from source n s ≡ done (peek s.fs_data source n, s)
unfolding memcpy_from
memcpy_from-eq s source n h = ground arith

module _ {rb : ℕ} {s : State} (ok : IsSound rb s) {h i : ℕ} {e : OpenFileEntry} {v : Inode}
    (k : IsHandle rb s h e i v) where
  read_block-eq :
      (b n : ℕ)
      → IsWritable rb s h e i v b
      → e.of_offset + n ≤ s.block_size
      → read_block (pos h) e v n s
        ≡ done ((pos n, peek s.fs_data (b * s.block_size + e.of_offset) n), moved_on s h e n)
  unfolding read_block store_open_file unlock_and_return
  read_block-eq b n w fits =
      let inside = block_in_data ok.shape b w.block_in in
      let source = b * s.block_size + e.of_offset in
      let small = block_size_fits ok in
      ground (
        arith,
        w.block,
        data_block_get-eq ok.shape b w.block_in,
        inside.0,
        memcpy_from-eq s source n (omega (arith, inside)),
        get_elem?_bound s.open_file_table h e k.entry,
      )

  moved_on-IsSound : (n : ℕ) → e.of_offset + n ≤ s.block_size → IsSound rb (moved_on s h e n)
  moved_on-IsSound n fits = set_mutex false (
      set_open_file h _
        (record {
          inumber = o.inumber;
          is_inumber = o.is_inumber;
          not_root = o.not_root;
          in_table = o.in_table;
          in_block = fits;
          inode = o.inode;
        })
        ok)
    where
      o : IsOpenFile rb s.params s.inode_table e
      o = ok.open_files h e k.opened k.entry

  read_open-eq :
      (len : ℕ)
      → e.of_offset ≤ v.i_size
      → read_open (pos h) len s ≡ (
          if ltb 0 (min len (v.i_size - e.of_offset))
          then read_block (pos h) e v (min len (v.i_size - e.of_offset)) s
          else done ((pos 0, []), record s { mutex_locked = false }))
  unfolding read_open unlock_and_return
  read_open-eq len within = ground (
    arith,
    k.entry,
    k.inumber,
    k.inode,
    inode_get-eq ok.shape i
        (omega (arith, get_elem?_bound s.inode_table i v k.inode, ok.shape.inodes)),
    clip_read-eq v.i_size e.of_offset len within
        (omega (arith, (handle_inode ok k).size_fits, block_size_fits ok)),
  )

  read_open-ReadEnds :
      (len : ℕ)
      → e.of_offset ≤ v.i_size
      → ReadEnds rb s h e v (min len (v.i_size - e.of_offset)) (read_open (pos h) len s)
  read_open-ReadEnds len within = elim (Bool-cases (ltb 0 (min len (v.i_size - e.of_offset)))) [
    | inr p ↦ at_end (ground arith) (read_open-eq len within ∙ rw p refl)
    | inl p ↦
        let (b, w) = writable ok k (ground arith) in
        let fits : e.of_offset + min len (v.i_size - e.of_offset) ≤ s.block_size =
          omega (arith, w.size_fits) in
        copied b (ground arith) w.block (read_open-eq len within ∙ rw p (read_block-eq b _ w fits))
          (moved_on-IsSound _ fits)
  ]

  read_body-eq : (len : ℕ) → read_body (pos h) len s ≡ read_open (pos h) len s
  unfolding read_body
  read_body-eq len = ground (arith, get_open_file_entry-eq ok k)

-- Between operations, a `tfs_read` of `len` bytes through an open handle whose offset is not past
-- the end of its file reads `n` bytes, the lesser of `len` and what is left. If `n` is 0 it
-- returns 0 and no byte, and changes nothing. Otherwise it returns `n` with the bytes of the file's
-- block from the offset on, moves the offset on by `n`, changes nothing else and keeps the
-- invariant. The mutex is free afterwards.
pub tfs_read-ReadEnds :
    {rb : ℕ} {s : State} {h i : ℕ} {e : OpenFileEntry} {v : Inode}
    → IsSound rb s
    → s.mutex_locked ≡ false
    → IsHandle rb s h e i v
    → e.of_offset ≤ v.i_size
    → (len : ℕ) → ReadEnds rb s h e v (min len (v.i_size - e.of_offset)) (tfs_read (pos h) len s)
unfolding tfs_read
tfs_read-ReadEnds {rb} {s} {h} {i} {e} {v} ok unheld k within len =
    subst (ReadEnds rb s h e v (min len (v.i_size - e.of_offset)))
      (sym (
        locked-eq {A = ℤ × List ℕ} (minus_one, []) (read_body (pos h) len) s unheld
        ∙ read_body-eq ok' k' len))
      (unlocked (read_open-ReadEnds ok' k' len within))
  where
    ok' : IsSound rb (record s { mutex_locked = true })
    ok' = set_mutex true ok

    k' : IsHandle rb (record s { mutex_locked = true }) h e i v
    k' = record { opened = k.opened; entry = k.entry; inumber = k.inumber; inode = k.inode }

    unlocked :
        {n : ℕ} {o : Outcome ((ℤ × List ℕ) × State)}
        → ReadEnds rb (record s { mutex_locked = true }) h e v n o
        → ReadEnds rb s h e v n o
    unlocked (at_end z eq) = at_end z eq
    unlocked (copied b p eb eq z) = copied b p eb eq z
