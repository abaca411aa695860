-- ===== src/Invariant/Delete.antt =====
-- `inode_delete` of fs/state.c on a file's inode.
use t_cnico_file_system_pt.Prelude.{
  ℕ, ◌<◌, ◌≡◌, ◌≢◌, ◌⊎◌, inl, inr, refl, arith, pos, List, some, get_elem?, set, Bool-cases,
  get_elem?_bound, ltb,
}
use t_cnico_file_system_pt.State.Types.{State, done, Inode, AllocationState, free, taken}
use t_cnico_file_system_pt.State.Inodes.{inode_delete, store_freeinode}
use t_cnico_file_system_pt.Invariant.Defs.{IsFileInode, IsSound}
use t_cnico_file_system_pt.Invariant.Changes.{set_block_state}
use t_cnico_file_system_pt.Invariant.Calls.{data_block_free-eq}

-- The block table without the inode's block.
abbrev pub Released : ℕ → State → Inode → List AllocationState → Type 0
Released rb s v fb =
    ((v.i_size ≡ 0) × (fb ≡ s.free_blocks))
    ⊎ ((b : ℕ) × (b ≢ rb)
        × (v.i_data_block ≡ pos b)
        × (b < s.max_block_count)
        × (0 < v.i_size)
        × (fb ≡ set s.free_blocks b free))

module _ {rb : ℕ} {s : State} (ok : IsSound rb s) where
  pub released :
      (v : Inode) → IsFileInode rb s.params v → (fb : List AllocationState) × Released rb s v fb
  released v good = elim (Bool-cases (ltb 0 v.i_size)) [
    | inl p ↦
        let (b, e, l, n) = good.has_block (ground arith) in
        (set s.free_blocks b free, inr (b, n, e, l, ground arith, refl))
    | inr p ↦ (s.free_blocks, inl (ground arith, refl))
  ]

  pub Released-IsSound :
      (v : Inode) (fb : List AllocationState)
      → Released rb s v fb
      → IsSound rb (record s { free_blocks = fb })
  Released-IsSound v fb (inl (_, e)) = rw e ok
  Released-IsSound v fb (inr (b, n, _, _, _, e)) = rw e (set_block_state b free n ok)

  pub inode_delete-eq :
      (i : ℕ) (v : Inode) (fb : List AllocationState)
      → get_elem? s.freeinode_ts i ≡ some taken
      → get_elem? s.inode_table i ≡ some v
      → Released rb s v fb
      → inode_delete (pos i) s
        ≡ done (tt, record s { free_blocks = fb; freeinode_ts = set s.freeinode_ts i free })
  unfolding inode_delete store_freeinode
  inode_delete-eq i v fb t e (inl r) =
      ground (arith, get_elem?_bound s.freeinode_ts i taken t, ok.shape.inode_states)
  inode_delete-eq i v fb t e (inr (b, n, eb, l, p, same)) = ground (
    arith,
    get_elem?_bound s.freeinode_ts i taken t,
    ok.shape.inode_states,
    data_block_free-eq ok.shape b l,
  )
