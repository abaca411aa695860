-- ===== src/Tests/Sequences.antt =====
-- The theorems on sequences of calls of fs/operations.c, at the example.
use t_cnico_file_system_pt.Prelude.{
  ℕ, ◌≡◌, refl, ◌∙◌, sym, arith, pos, minus_one, [], ◌∷◌, some, false, get_elem?, set,
}
use t_cnico_file_system_pt.State.Types.{State, done, free, taken, t_file}
use t_cnico_file_system_pt.State.Bytes.{peek, int_of_bytes, strncmp_eq}
use t_cnico_file_system_pt.State.Dir.{
  fill_entry, peek_entry, find_in_dir, find_loop, add_dir_entry, add_loop,
}
use t_cnico_file_system_pt.State.Tables.{
  data_block_get, alloc_loop, add_to_open_file_table, fill_open_file_entry, valid_block_number,
  valid_inumber,
}
use t_cnico_file_system_pt.State.Inodes.{
  inode_get, inode_create, inode_alloc, store_inode, create_file,
}
use t_cnico_file_system_pt.Operations.Mutex.{locked, mutex_lock, mutex_unlock, unlock_and_return}
use t_cnico_file_system_pt.State.Dir.Listing.{lookup}
use t_cnico_file_system_pt.Invariant.Defs.{root_entries}
use t_cnico_file_system_pt.Operations.Open.{
  tfs_open, tfs_close, has_creat, open_body, open_created, valid_pathname, tfs_lookup,
}
use t_cnico_file_system_pt.Operations.Open.Handle.{path_to}
use t_cnico_file_system_pt.Operations.Open.Existing.{Reopens}
use t_cnico_file_system_pt.Operations.Open.Close.{closed_at}
use t_cnico_file_system_pt.Operations.Open.Create.Steps.{new_file}
use t_cnico_file_system_pt.Operations.Unlink.{tfs_unlink}
use t_cnico_file_system_pt.Operations.Sequences.{
  SameFiles, OpensAtStart, tfs_open-created, tfs_unlink-gone,
}
use t_cnico_file_system_pt.Tests.Example.{
  example, example-IsSound, example-listed, example-unlisted,
}

tfs_unlink-gone_example :
    (s' : State) × (tfs_unlink (path_to 97 []) example ≡ done (pos 0, s'))
    × (tfs_unlink (path_to 97 []) s' ≡ done (minus_one, s'))
    × ((mode : ℕ)
        → has_creat mode ≡ false
        → tfs_open (path_to 97 []) mode s' ≡ done (minus_one, s'))
    × SameFiles 0 (97 ∷ []) example s'
tfs_unlink-gone_example =
    tfs_unlink-gone 97 [] example-IsSound refl (λ e. omega arith, tt)
      (λ e. ground (arith, sym example-listed ∙ e))

abbrev after_create : State
after_create = record example {
  inode_table =
      set example.inode_table 2
        (record { i_node_type = t_file; i_size = 0; i_data_block = minus_one });
  freeinode_ts = taken ∷ taken ∷ taken ∷ [];
  fs_data = fill_entry example.fs_data 44 (98 ∷ []) (pos 2);
  open_file_table = set example.open_file_table 2 (record { of_inumber = pos 2; of_offset = 0 });
  free_open_file_entries = taken ∷ taken ∷ taken ∷ [];
}

after_create-eq : tfs_open (path_to 98 []) 1 example ≡ done (pos 2, after_create)
unfolding tfs_open open_body open_created valid_pathname tfs_lookup locked mutex_lock mutex_unlock
    unlock_and_return inode_get find_in_dir data_block_get find_loop peek_entry int_of_bytes peek
    strncmp_eq inode_create inode_alloc alloc_loop store_inode add_dir_entry add_loop create_file
    add_to_open_file_table fill_open_file_entry valid_block_number valid_inumber
after_create-eq = refl

tfs_open-created_example :
    (i : ℕ) × (get_elem? example.freeinode_ts i ≡ some free)
    × (lookup (root_entries 0 after_create) (98 ∷ []) ≡ pos i)
    × (get_elem? after_create.inode_table i ≡ some new_file)
    × (tfs_close (pos 2) after_create ≡ done (pos 0, closed_at after_create 2))
    × ((mode' : ℕ)
        → OpensAtStart 0
            (closed_at after_create 2)
            i
            (tfs_open (path_to 98 []) mode' (closed_at after_create 2)))
    × ((mode' : ℕ) → Reopens 0 after_create i mode' (tfs_open (path_to 98 []) mode' after_create))
    × SameFiles 0 (98 ∷ []) example after_create
tfs_open-created_example =
    tfs_open-created 98 [] 1 2 example-IsSound refl
      (record {
        bytes = (λ e. omega arith, tt);
        nonempty = λ e. ground (arith, e);
        fits = omega arith;
      })
      example-unlisted refl after_create-eq
