-- ===== src/Operations/Open/Create.antt =====
-- `tfs_open` of fs/operations.c with the create flag, on a file that does not exist.
pub mod Steps
use t_cnico_file_system_pt.Prelude.{
  ℕ, ◌<◌, ◌≡◌, ◌≢◌, inl, inr, refl, sym, ◌∙◌, arith, ℤ, pos, minus_one, List, [], ◌∷◌, some,
  get_elem?, set, true, false, Bool-cases, get_elem?-set_self, get_elem?-set_ne, get_elem?-lt,
  set_same, set-set, length-set,
}
use mathlib.Core.Path.{subst}
use t_cnico_file_system_pt.State.Types.{State, Outcome, done, Inode, free, taken, t_file, DirEntry}
use t_cnico_file_system_pt.State.Bytes.{Memory}
use t_cnico_file_system_pt.State.Tables.FirstFree.{AllTaken}
use t_cnico_file_system_pt.State.Inodes.{store_inode, inode_alloc, inode_create, create_file}
use t_cnico_file_system_pt.State.Dir.{add_dir_entry}
use t_cnico_file_system_pt.State.Dir.Listing.{lookup, insert, has_room, insert-IsTidy}
use t_cnico_file_system_pt.State.Dir.Laws.{IsFileName, insert-IsDistinct}
use t_cnico_file_system_pt.State.Dir.Links.{IsAbsent-of_free, insert-Links, insert-IsOneToOne}
use t_cnico_file_system_pt.Invariant.Defs.{
  IsSound, IsDirectory, IsFileInode, root_entries, root_inode, root_inside, root_in_table,
}
use t_cnico_file_system_pt.Invariant.Changes.{set_inode, take_inode, set_data, set_mutex}
use t_cnico_file_system_pt.Invariant.Calls.{
  inode_get-eq, inode_alloc-eq, store_inode-eq, none_free, one_free, put_inode,
}
use t_cnico_file_system_pt.Invariant.Root.{Rewrites, add_dir_entry-root}
use t_cnico_file_system_pt.Invariant.Delete.{inode_delete-eq}
use t_cnico_file_system_pt.Operations.Mutex.{locked-eq, unlock_and_return}
use t_cnico_file_system_pt.Operations.Open.{
  CString, slash, valid_pathname, open_created, open_body, tfs_open, has_creat,
}
use t_cnico_file_system_pt.Operations.Open.Handle.{
  path_to, tfs_lookup-root, Opens, finish_open, finish_open-Opens,
}
use t_cnico_file_system_pt.Operations.Open.Create.Steps.{
  new_file, with_file, listed_in, insert-no_room, new_file-IsFileInode, not_root, with_file-IsSound,
  listed_in-IsSound, open_created_listed, open_created_full,
}

open_created_none :
    (s : State) (name : CString)
    → inode_alloc s ≡ done (minus_one, s)
    → open_created (pos 0) (slash ∷ name) s ≡ done (minus_one, record s { mutex_locked = false })
unfolding open_created inode_create unlock_and_return
open_created_none s name eq = ground (arith, eq)

-- The ways in which `tfs_open` with the create flag ends on a name that is not listed: all inodes
-- are taken; all entries of the directory are; or the file is created and opened.
pub data Creates (rb : ℕ) (s : State) (name : CString) (o : Outcome (ℤ × State)) : Type 0 where
  no_inode :
      AllTaken s.max_inode_count s.freeinode_ts
      → o ≡ done (minus_one, record s { mutex_locked = false })
      → Creates rb s name o
  no_entry :
      (s' : State)
      → has_room (root_entries rb s) ≡ false
      → o ≡ done (minus_one, s')
      → IsSound rb s'
      → root_entries rb s' ≡ root_entries rb s
      → s'.freeinode_ts ≡ s.freeinode_ts
      → s'.mutex_locked ≡ false
      → s'.free_open_file_entries ≡ s.free_open_file_entries
      → Creates rb s name o
  created :
      (i : ℕ) (s' : State)
      → has_room (root_entries rb s) ≡ true
      → get_elem? s.freeinode_ts i ≡ some free
      → AllTaken i s.freeinode_ts
      → IsSound rb s'
      → root_entries rb s' ≡ insert (root_entries rb s) name (pos i)
      → get_elem? s'.inode_table i ≡ some new_file
      → s'.freeinode_ts ≡ set s.freeinode_ts i taken
      → s'.free_open_file_entries ≡ s.free_open_file_entries
      → Opens rb s' i 0 o
      → Creates rb s name o

module _ {rb : ℕ} {s : State} (ok : IsSound rb s) (name : CString) (f : IsFileName name)
    (new : lookup (root_entries rb s) name ≡ minus_one) where
  created_full :
      (i : ℕ) (inside : i < s.max_inode_count) (is_free : get_elem? s.freeinode_ts i ≡ some free)
      → inode_alloc s ≡ done (pos i, put_inode i s)
      → (m : Memory)
      → add_dir_entry (root_inode rb s.params) name (pos i) (with_file s i)
        ≡ done (minus_one, listed_in s i m)
      → Rewrites rb (with_file s i) (insert (root_entries rb s) name (pos i)) m
      → has_room (root_entries rb s) ≡ false
      → Creates rb s name (open_created (pos 0) (slash ∷ name) s)
  created_full i inside is_free eq m added w room =
      no_entry
        (record s { inode_table = set s.inode_table i new_file; fs_data = m; mutex_locked = false })
        room
        (open_created_full ok i inside is_free name m eq added
          (listed_in-IsSound ok i inside is_free name m f new w))
        (set_mutex false (
          set_data m (subst (IsDirectory s.freeinode_ts) (sym same) ok.directory)
            (set_inode i new_file (not_root ok i inside is_free) (new_file-IsFileInode rb s) ok)))
        same refl refl refl
    where
      same : root_entries rb (record s { fs_data = m }) ≡ root_entries rb s
      same = w.becomes ∙ insert-no_room (root_entries rb s) name (pos i) room

  created_listed :
      (i : ℕ) (inside : i < s.max_inode_count) (is_free : get_elem? s.freeinode_ts i ≡ some free)
      → AllTaken i s.freeinode_ts
      → inode_alloc s ≡ done (pos i, put_inode i s)
      → (m : Memory)
      → add_dir_entry (root_inode rb s.params) name (pos i) (with_file s i)
        ≡ done (pos 0, listed_in s i m)
      → Rewrites rb (with_file s i) (insert (root_entries rb s) name (pos i)) m
      → has_room (root_entries rb s) ≡ true
      → Creates rb s name (open_created (pos 0) (slash ∷ name) s)
  created_listed i inside is_free before eq m added w room =
      created i (listed_in s i m) room is_free before sound w.becomes at refl refl (
        subst (Opens rb (listed_in s i m) i 0)
          (sym (open_created_listed ok i inside is_free name m eq added))
          (finish_open-Opens sound i 0 (not_root ok i inside is_free) inside (omega arith)
            (λ v e. sound.files i v (not_root ok i inside is_free) used e)))
    where
      sound : IsSound rb (listed_in s i m)
      sound = listed_in-IsSound ok i inside is_free name m f new w

      at : get_elem? (set s.inode_table i new_file) i ≡ some new_file
      at = get_elem?-set_self s.inode_table i new_file (omega (arith, ok.shape.inodes))

      used : get_elem? (set s.freeinode_ts i taken) i ≡ some taken
      used = get_elem?-set_self s.freeinode_ts i taken (omega (arith, ok.shape.inode_states))

  open_created-Creates : Creates rb s name (open_created (pos 0) (slash ∷ name) s)
  open_created-Creates = elim (inode_alloc-eq ok.shape) [
    | none_free eq all ↦ no_inode all (open_created_none s name eq)
    | one_free i inside is_free before eq ↦
        let (m, added, w) =
          add_dir_entry-root {s = with_file s i} (with_file-IsSound ok i inside is_free).shape
            (root_inside ok) name (pos i) f (omega (arith, ok.shape.inodes_fit)) in
        elim (Bool-cases (has_room (root_entries rb s))) [
          | inl r ↦ created_listed i inside is_free before eq m (rw r at added) w r
          | inr r ↦ created_full i inside is_free eq m (rw r at added) w r
        ]
  ]

open_body-create :
    {rb : ℕ} {s : State}
    → IsSound rb s
    → (c : ℕ) (name : CString) (mode : ℕ) → lookup (root_entries rb s) (c ∷ name) ≡ minus_one
    → has_creat mode ≡ true
    → open_body (path_to c name) mode s ≡ open_created (pos 0) (slash ∷ c ∷ name) s
unfolding open_body valid_pathname
open_body-create {rb} {s} ok c name mode e t =
    ground
      (arith, inode_get-eq ok.shape 0 (root_in_table ok), ok.root, tfs_lookup-root ok c name, e)

-- Between operations, `tfs_open` with the create flag of the path of a file name that the directory
-- does not list ends in one of three ways. If all inodes are taken it returns -1 and changes
-- nothing; if the directory has no free entry it returns -1, and the directory and the inodes in
-- use stay as they were. Otherwise the first free inode becomes an empty file's, the directory's
-- first free entry lists it under the name and nothing else changes in the list, and the file gets
-- the first free handle at offset 0; if none is free, the call returns -1 and the file stays. The
-- mutex is free and the invariant holds in each case.
pub tfs_open-Creates :
    {rb : ℕ} {s : State} (c : ℕ) (name : CString) (mode : ℕ)
    → IsSound rb s
    → s.mutex_locked ≡ false
    → IsFileName (c ∷ name)
    → lookup (root_entries rb s) (c ∷ name) ≡ minus_one
    → has_creat mode ≡ true
    → Creates rb s (c ∷ name) (tfs_open (path_to c name) mode s)
unfolding tfs_open
tfs_open-Creates {rb} {s} c name mode ok unheld f new t =
    subst (Creates rb s (c ∷ name))
      (sym (
        locked-eq {A = ℤ} minus_one (open_body (path_to c name) mode) s unheld
        ∙ open_body-create ok' c name mode new t))
      (unlocked (open_created-Creates ok' (c ∷ name) f new))
  where
    ok' : IsSound rb (record s { mutex_locked = true })
    ok' = set_mutex true ok

    unlocked :
        {o : Outcome (ℤ × State)}
        → Creates rb (record s { mutex_locked = true }) (c ∷ name) o
        → Creates rb s (c ∷ name) o
    unlocked (no_inode all eq) = no_inode all eq
    unlocked (no_entry s' r eq sound same states unheld handles) =
        no_entry s' r eq sound same states unheld handles
    unlocked (created i s' r e before sound listed at states handles opens) =
        created i s' r e before sound listed at states handles opens
