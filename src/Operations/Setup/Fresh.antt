-- ===== src/Operations/Setup/Fresh.antt =====
-- `tfs_init` of fs/operations.c makes a file system with an empty directory.
pub mod Tables
use t_cnico_file_system_pt.Prelude.{
  ℕ, zero, suc, ◌+◌, ◌*◌, ◌/◌, ◌≤◌, ◌<◌, ◌≡◌, ◌≢◌, inl, inr, refl, sym, ap, ◌∙◌, arith, ℤ, pos,
  minus_one, is_minus_one, List, [], ◌∷◌, Option, none, some, get_elem?, set, true, false,
  get_elem?-set_self, get_elem?-set_ne, length, if◌then◌else◌, replicate, length-replicate,
  length-set, int_half, ssize_half, mul_size, set-set,
}
use mathlib.Core.Path.{subst}
use t_cnico_file_system_pt.State.Types.{
  State, TfsParams, done, Inode, AllocationState, free, taken, t_directory, DirEntry,
  dir_entry_size, Fs, InodeType, pure, ◌>>=◌, ◌>>◌,
}
use t_cnico_file_system_pt.State.Bytes.{
  Memory, poke, int_bytes, peek, peek_int, int_of_bytes, peek_int-poke, peek-poke_disjoint,
}
use t_cnico_file_system_pt.State.Tables.{data_block_alloc, data_block_get, valid_block_number}
use t_cnico_file_system_pt.State.Tables.FirstFree.{AllTaken}
use t_cnico_file_system_pt.State.Inodes.{
  inode_alloc, inode_create, create_directory, init_directory, label_entries, store_inode,
  load_inode, create_by_type,
}
use t_cnico_file_system_pt.State.Init.{
  Allocation, state_init, mark_free, mark_all_free, array, byte_array,
}
use t_cnico_file_system_pt.State.Dir.{peek_entry}
use t_cnico_file_system_pt.State.Dir.Listing.{AllFree, IsTidy, lookup, lookup-AllFree}
use t_cnico_file_system_pt.State.Dir.Laws.{IsDistinct}
use t_cnico_file_system_pt.State.Dir.Links.{Links, IsOneToOne}
use t_cnico_file_system_pt.State.Dir.Refine.{entries}
use t_cnico_file_system_pt.Invariant.Defs.{HasShape, IsSound, IsDirectory, root_entries, root_inode}
use t_cnico_file_system_pt.Invariant.Calls.{
  inode_alloc-eq, data_block_alloc-eq, none_free, one_free, put_inode, put_block,
}
use t_cnico_file_system_pt.Invariant.Root.{mul-bound}
use t_cnico_file_system_pt.Operations.Setup.{tfs_init, params_of}
use t_cnico_file_system_pt.Operations.Setup.Fresh.Tables.{
  AllFree-IsDirectory, mark_free-eq, label_entries-AllFree, IsAllocated, blank, none_taken,
  first_free, bind-done, create_from, element,
}

module _ (alloc : Allocation) (p : TfsParams) (s : State) (given : IsAllocated alloc p) where
  positive : 0 < p.max_block_count * p.block_size
  positive =
      omega (arith, mul-bound 0 p.max_block_count p.block_size given.some_blocks, given.some_bytes)

  state_init-eq : s.is_set_up ≡ false → state_init alloc p s ≡ done (pos 0, blank alloc p s)
  unfolding state_init mark_all_free
  state_init-eq e = ground (
    arith,
    given.inodes_given,
    given.inode_states_given,
    given.bytes_given,
    given.block_states_given,
    given.open_files_given,
    given.open_file_states_given,
    mark_free-eq p.max_inode_count (array alloc.inode_states) given.inode_states,
    mark_free-eq p.max_block_count (array alloc.block_states) given.block_states,
    mark_free-eq p.max_open_files_count (array alloc.open_file_states) given.open_file_states,
    given.bytes,
    positive,
  )

  blank-HasShape : HasShape (blank alloc p s)
  blank-HasShape = record {
    inodes = given.inodes;
    inode_states = length-replicate p.max_inode_count free;
    block_states = length-replicate p.max_block_count free;
    open_files = given.open_files;
    open_file_states = length-replicate p.max_open_files_count free;
    bytes = given.bytes;
    some_bytes = given.some_bytes;
    inodes_fit = given.inodes_fit;
    blocks_fit = given.blocks_fit;
    bytes_fit = given.bytes_fit;
  }

  inode_alloc-blank : inode_alloc (blank alloc p s) ≡ done (pos 0, put_inode 0 (blank alloc p s))
  inode_alloc-blank = elim (inode_alloc-eq blank-HasShape) [
    | none_free e all ↦ absurd (none_taken p.max_inode_count 0 (all 0 given.some_inodes))
    | one_free k l f before e ↦
        e
        ∙ ap (λ j. done (pos j, put_inode j (blank alloc p s)))
            (first_free p.max_inode_count k before)
  ]

  -- The state in which `inode_create` looks for the root's block, and the one it leaves, with the
  -- data `m`.
  typed : Inode → State
  typed v = record (put_inode 0 (blank alloc p s)) { inode_table = set (array alloc.inodes) 0 v }

  rooted : Memory → State
  rooted m = record (put_block 0 (typed (root_inode 0 p))) { fs_data = m }

  put_blank-HasShape : HasShape (put_inode 0 (blank alloc p s))
  put_blank-HasShape = record {
    inodes = given.inodes;
    inode_states =
        length-set (replicate p.max_inode_count free) 0 taken
        ∙ length-replicate p.max_inode_count free;
    block_states = length-replicate p.max_block_count free;
    open_files = given.open_files;
    open_file_states = length-replicate p.max_open_files_count free;
    bytes = given.bytes;
    some_bytes = given.some_bytes;
    inodes_fit = given.inodes_fit;
    blocks_fit = given.blocks_fit;
    bytes_fit = given.bytes_fit;
  }

  typed-HasShape : (v : Inode) → HasShape (typed v)
  unfolding typed
  typed-HasShape v =
      let h = put_blank-HasShape in
      record {
        inodes = length-set (array alloc.inodes) 0 v ∙ h.inodes;
        inode_states = h.inode_states;
        block_states = h.block_states;
        open_files = h.open_files;
        open_file_states = h.open_file_states;
        bytes = h.bytes;
        some_bytes = h.some_bytes;
        inodes_fit = h.inodes_fit;
        blocks_fit = h.blocks_fit;
        bytes_fit = h.bytes_fit;
      }

  data_block_alloc-typed :
      (v : Inode) → data_block_alloc (typed v) ≡ done (pos 0, put_block 0 (typed v))
  unfolding typed
  data_block_alloc-typed v = elim (data_block_alloc-eq (typed-HasShape v)) [
    | none_free e all ↦ absurd (none_taken p.max_block_count 0 (all 0 given.some_blocks))
    | one_free k l f before e ↦
        e ∙ ap (λ j. done (pos j, put_block j (typed v))) (first_free p.max_block_count k before)
  ]

  -- The new directory has no entry in use.
  init_directory-rooted :
      (m : Memory) × (init_directory (pos 0) (put_block 0 (typed (root_inode 0 p)))
        ≡ done (tt, rooted m))
      × AllFree (root_entries 0 (rooted m))
  unfolding init_directory rooted typed data_block_get valid_block_number
  init_directory-rooted =
      let (m, e, all, same) =
        label_entries-AllFree (p.block_size / dir_entry_size) alloc.bytes_size 0
          (byte_array alloc.bytes)
          (omega
            (arith, given.bytes, mul-bound 0 p.max_block_count p.block_size given.some_blocks)) in
      (
        m,
        ground (arith, e, given.some_blocks, zero_offset),
        subst (λ o. AllFree (entries m o (p.block_size / dir_entry_size))) (sym zero_offset) all,
      )
    where
      zero_offset : mul_size 0 p.block_size ≡ 0
      zero_offset = ground arith

  create_directory-typed :
      (w : Inode)
      → w.i_node_type ≡ t_directory
      → (m : Memory)
      → init_directory (pos 0) (put_block 0 (typed (root_inode 0 p))) ≡ done (tt, rooted m)
      → create_directory (pos 0) (typed w) ≡ done (pos 0, rooted m)
  unfolding create_directory typed store_inode
  create_directory-typed w is_dir m e = ground (
    arith,
    data_block_alloc-typed w,
    get_elem?-set_self (array alloc.inodes) 0 w (omega (arith, given.inodes, given.some_inodes)),
    length-set (array alloc.inodes) 0 w,
    given.inodes,
    given.some_inodes,
    set-set (array alloc.inodes) 0 w (root_inode 0 p),
    is_dir,
    e,
  )

  inode_create-typed :
      (v : Inode) (m : Memory)
      → get_elem? (array alloc.inodes) 0 ≡ some v
      → create_directory (pos 0) (typed (record v { i_node_type = t_directory }))
        ≡ done (pos 0, rooted m)
      → inode_create t_directory (blank alloc p s) ≡ done (pos 0, rooted m)
  unfolding inode_create typed store_inode
  inode_create-typed v m at e =
      bind-done inode_alloc (create_from t_directory) (blank alloc p s) (pos 0) _ inode_alloc-blank
      ∙ ground (arith, at, given.inodes, given.some_inodes, e)

  inode_create-rooted :
      (m : Memory) × (inode_create t_directory (blank alloc p s) ≡ done (pos 0, rooted m))
      × AllFree (root_entries 0 (rooted m))
  inode_create-rooted =
      let (m, e, all) = init_directory-rooted in
      let (v, at) = element (array alloc.inodes) (omega (arith, given.inodes, given.some_inodes)) in
      (
        m,
        inode_create-typed v m at
            (create_directory-typed (record v { i_node_type = t_directory }) refl m e),
        all,
      )

  rooted-IsSound : (m : Memory) → AllFree (root_entries 0 (rooted m)) → IsSound 0 (rooted m)
  unfolding rooted typed
  rooted-IsSound m all = record {
    shape = rooted-HasShape;
    root =
        get_elem?-set_self (array alloc.inodes) 0 _
          (omega (arith, given.inodes, given.some_inodes));
    root_taken =
        get_elem?-set_self (replicate p.max_inode_count free) 0 taken
          (omega (arith, length-replicate p.max_inode_count free, given.some_inodes));
    root_block =
        get_elem?-set_self (replicate p.max_block_count free) 0 taken
          (omega (arith, length-replicate p.max_block_count free, given.some_blocks));
    files = λ i v n t e. absurd (
        none_taken p.max_inode_count i
          (sym (get_elem?-set_ne (replicate p.max_inode_count free) taken (λ z. n (sym z))) ∙ t));
    open_files = λ h e t g. absurd (none_taken p.max_open_files_count h t);
    directory = AllFree-IsDirectory _ _ all;
  }
    where
      rooted-HasShape : HasShape (rooted m)
      rooted-HasShape =
          let h = typed-HasShape (root_inode 0 p) in
          record {
            inodes = h.inodes;
            inode_states = h.inode_states;
            block_states = length-set (replicate p.max_block_count free) 0 taken ∙ h.block_states;
            open_files = h.open_files;
            open_file_states = h.open_file_states;
            bytes = h.bytes;
            some_bytes = h.some_bytes;
            inodes_fit = h.inodes_fit;
            blocks_fit = h.blocks_fit;
            bytes_fit = h.bytes_fit;
          }

-- What `tfs_init` leaves: the invariant holds, no name is listed and no handle is open.
pub record IsFresh (s' : State) : Type 0 where
  pub sound : IsSound 0 s'
  pub no_files : (name : List ℕ) → lookup (root_entries 0 s') name ≡ minus_one
  pub no_handles : (h : ℕ) → get_elem? s'.free_open_file_entries h ≢ some taken

-- If no file system is set up and `malloc` gives the arrays that the parameters ask for, with an
-- inode, a block and a byte in it at least and no more entries than an `int` counts, `tfs_init`
-- returns 0. The invariant then holds with the root in the first block, whatever the arrays held: the
-- directory lists no name, no handle is open, and the parameters are those asked for or the default
-- ones.
pub tfs_init-IsFresh :
    (alloc : Allocation) (params_ptr : Option TfsParams) (s : State)
    → IsAllocated alloc (params_of params_ptr)
    → s.is_set_up ≡ false
    → (s' : State) × (tfs_init alloc params_ptr s ≡ done (pos 0, s'))
      × IsFresh s'
      × (s'.params ≡ params_of params_ptr)
      × (s'.mutex_locked ≡ s.mutex_locked)
unfolding tfs_init rooted typed
tfs_init-IsFresh alloc params_ptr s given e =
    let p = params_of params_ptr in
    let (m, created, all) = inode_create-rooted alloc p s given in
    (
      rooted alloc p s given m,
      ground (arith, state_init-eq alloc p s given e, created),
      record {
        sound = rooted-IsSound alloc p s given m all;
        no_files = λ name. lookup-AllFree _ name all;
        no_handles = none_taken p.max_open_files_count;
      },
      refl,
      refl,
    )
