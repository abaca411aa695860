-- ===== src/Invariant/Calls.antt =====
-- What the functions of fs/state.c return, and the state that they leave, where their arguments
-- are in range. None of them then panics or leaves the tables.
use t_cnico_file_system_pt.Prelude.{
  ℕ, ◌<◌, ◌≡◌, arith, ℤ, pos, minus_one, List, some, get_elem?, set, mul_size,
}
use t_cnico_file_system_pt.State.Types.{State, Fs, done, Inode, AllocationState, free, taken}
use t_cnico_file_system_pt.State.Tables.{
  data_block_alloc, data_block_free, data_block_get, add_to_open_file_table, fill_open_file_entry,
}
use t_cnico_file_system_pt.State.Tables.FirstFree.{AllTaken, full, found, alloc_loop-LoopEnds}
use t_cnico_file_system_pt.State.Inodes.{inode_alloc, inode_get, store_inode}
use t_cnico_file_system_pt.Invariant.Defs.{HasShape}

-- The states that the three allocators leave when they take the entry `k`.
abbrev pub put_block : ℕ → State → State
put_block k s = record s { free_blocks = set s.free_blocks k taken }

abbrev pub put_inode : ℕ → State → State
put_inode k s = record s { freeinode_ts = set s.freeinode_ts k taken }

abbrev pub put_open_file : ℤ → ℕ → ℕ → State → State
put_open_file z o k s = record s {
  free_open_file_entries = set s.free_open_file_entries k taken;
  open_file_table = set s.open_file_table k (record { of_inumber = z; of_offset = o });
}

-- How an allocator ends on a table `t` of `n` entries: it returns -1 and changes nothing, or takes
-- the first free entry and returns its index.
pub data AllocEnds (f : Fs ℤ) (n : ℕ) (t : List AllocationState) (put : ℕ → State → State)
    (s : State) : Type 0 where
  none_free : f s ≡ done (minus_one, s) → AllTaken n t → AllocEnds f n t put s
  one_free :
      (k : ℕ)
      → k < n
      → get_elem? t k ≡ some free
      → AllTaken k t
      → f s ≡ done (pos k, put k s)
      → AllocEnds f n t put s

module _ {s : State} (shape : HasShape s) where
  pub data_block_free-eq :
      (b : ℕ)
      → b < s.max_block_count
      → data_block_free (pos b) s ≡ done (tt, record s { free_blocks = set s.free_blocks b free })
  unfolding data_block_free
  data_block_free-eq b h = ground (arith, shape.block_states)

  pub data_block_get-eq :
      (b : ℕ) → b < s.max_block_count → data_block_get (pos b) s ≡ done (mul_size b s.block_size, s)
  unfolding data_block_get
  data_block_get-eq b h = ground arith

  pub inode_get-eq : (i : ℕ) → i < s.max_inode_count → inode_get (pos i) s ≡ done (pos i, s)
  unfolding inode_get
  inode_get-eq i h = ground arith

  pub store_inode-eq :
      (i : ℕ) (v : Inode)
      → i < s.max_inode_count
      → store_inode (pos i) v s ≡ done (tt, record s { inode_table = set s.inode_table i v })
  unfolding store_inode
  store_inode-eq i v h = ground (arith, shape.inodes)

  -- An inode or a block is found and taken, or all are taken and nothing changes.
  pub data_block_alloc-eq : AllocEnds data_block_alloc s.max_block_count s.free_blocks put_block s
  unfolding data_block_alloc
  data_block_alloc-eq =
      elim (alloc_loop-LoopEnds s.max_block_count s.free_blocks shape.block_states) [
        | full e all ↦ none_free (ground (arith, shape.some_bytes)) all
        | found k l f before e ↦
            one_free k l f before (ground (arith, shape.some_bytes, shape.blocks_fit))
      ]

  pub inode_alloc-eq : AllocEnds inode_alloc s.max_inode_count s.freeinode_ts put_inode s
  unfolding inode_alloc
  inode_alloc-eq = elim (alloc_loop-LoopEnds s.max_inode_count s.freeinode_ts shape.inode_states) [
    | full e all ↦ none_free (ground (arith, shape.some_bytes)) all
    | found k l f before e ↦
        one_free k l f before (ground (arith, shape.some_bytes, shape.inodes_fit))
  ]

  pub add_to_open_file_table-eq :
      (z : ℤ) (o : ℕ)
      → AllocEnds
          (add_to_open_file_table z o)
          s.max_open_files_count
          s.free_open_file_entries
          (put_open_file z o)
          s
  unfolding add_to_open_file_table fill_open_file_entry
  add_to_open_file_table-eq z o =
      elim (alloc_loop-LoopEnds s.max_open_files_count s.free_open_file_entries
        shape.open_file_states) [
          | full e all ↦ none_free (ground arith) all
          | found k l f before e ↦ one_free k l f before (ground (arith, shape.open_files))
        ]
