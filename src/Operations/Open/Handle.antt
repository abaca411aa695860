-- ===== src/Operations/Open/Handle.antt =====
-- The end of `tfs_open` of fs/operations.c: an entry of the open file table for the file.
use t_cnico_file_system_pt.Prelude.{
  ℕ, ◌≤◌, ◌<◌, ◌≡◌, ◌≢◌, refl, arith, ℤ, pos, minus_one, ◌∷◌, Option, some, get_elem?, false,
  get_elem?-set_self,
}
use t_cnico_file_system_pt.State.Types.{State, Fs, Outcome, done, ◌>>=◌, Inode, OpenFileEntry, free}
use t_cnico_file_system_pt.State.Tables.{add_to_open_file_table}
use t_cnico_file_system_pt.State.Tables.FirstFree.{AllTaken}
use t_cnico_file_system_pt.State.Dir.Listing.{lookup}
use t_cnico_file_system_pt.Invariant.Defs.{
  IsSound, IsFileInode, IsOpenFile, root_entries, root_inode, root_inside,
}
use t_cnico_file_system_pt.Invariant.Changes.{set_open_file, take_open_file, set_mutex}
use t_cnico_file_system_pt.Invariant.Calls.{
  none_free, one_free, add_to_open_file_table-eq, put_open_file,
}
use t_cnico_file_system_pt.Invariant.Root.{find_in_dir-root}
use t_cnico_file_system_pt.Operations.Mutex.{unlock_and_return}
use t_cnico_file_system_pt.Operations.Open.{CString, slash, valid_pathname, tfs_lookup}

-- A path that names a file: a slash and a nonempty string.
abbrev pub path_to : ℕ → CString → Option CString
path_to c name = some (slash ∷ c ∷ name)

pub tfs_lookup-root :
    {rb : ℕ} {s : State}
    → IsSound rb s
    → (c : ℕ) (name : CString)
    → tfs_lookup (path_to c name) (root_inode rb s.params) s
      ≡ done (lookup (root_entries rb s) (c ∷ name), s)
unfolding tfs_lookup valid_pathname
tfs_lookup-root ok c name = ground (arith, find_in_dir-root ok.shape (root_inside ok) (c ∷ name))

-- The open file table gets an entry for the inode `i` at `offset`, or is full.
pub data Opens (rb : ℕ) (s : State) (i offset : ℕ) (o : Outcome (ℤ × State)) : Type 0 where
  table_full :
      AllTaken s.max_open_files_count s.free_open_file_entries
      → o ≡ done (minus_one, record s { mutex_locked = false })
      → IsSound rb (record s { mutex_locked = false })
      → Opens rb s i offset o
  handle :
      (h : ℕ)
      → get_elem? s.free_open_file_entries h ≡ some free
      → AllTaken h s.free_open_file_entries
      → o ≡ done (pos h, record (put_open_file (pos i) offset h s) { mutex_locked = false })
      → IsSound rb (record (put_open_file (pos i) offset h s) { mutex_locked = false })
      → Opens rb s i offset o

-- The last lines of `tfs_open`.
abbrev pub finish_open : ℤ → ℕ → Fs ℤ
finish_open inum offset = add_to_open_file_table inum offset >>= unlock_and_return minus_one

module _ {rb : ℕ} {s : State} (ok : IsSound rb s) (i offset : ℕ) (nz : i ≢ 0)
    (inside : i < s.max_inode_count) (fits : offset ≤ s.block_size)
    (good : (v : Inode) → get_elem? s.inode_table i ≡ some v → IsFileInode rb s.params v) where
  new_entry : OpenFileEntry
  new_entry = record { of_inumber = pos i; of_offset = offset }

  new_entry-IsOpenFile :
      IsOpenFile rb s.params s.inode_table (record { of_inumber = pos i; of_offset = offset })
  new_entry-IsOpenFile = record {
    inumber = i;
    is_inumber = refl;
    not_root = nz;
    in_table = inside;
    in_block = fits;
    inode = good;
  }

  put_open_file-IsSound :
      (h : ℕ) → h < s.max_open_files_count → IsSound rb (put_open_file (pos i) offset h s)
  put_open_file-IsSound h l =
      take_open_file h _ (get_elem?-set_self s.open_file_table h _ (omega (arith, ok.shape)))
        new_entry-IsOpenFile (set_open_file h _ new_entry-IsOpenFile ok)

  pub finish_open-Opens : Opens rb s i offset (finish_open (pos i) offset s)
  unfolding unlock_and_return
  finish_open-Opens = elim (add_to_open_file_table-eq ok.shape (pos i) offset) [
    | none_free eq all ↦ table_full all (ground (arith, eq)) (set_mutex false ok)
    | one_free h l f before eq ↦
        handle h f before (ground (arith, eq)) (set_mutex false (put_open_file-IsSound h l))
  ]
