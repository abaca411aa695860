-- ===== src/Operations/Open/Create/Steps.antt =====
-- The steps by which `tfs_open` of fs/operations.c creates a file.
use t_cnico_file_system_pt.Prelude.{
  ℕ, ◌<◌, ◌≡◌, ◌≢◌, inl, refl, sym, arith, ℤ, pos, minus_one, List, [], ◌∷◌, some, get_elem?, set,
  false, get_elem?-set_self, get_elem?-set_ne, get_elem?-lt, set_same, set-set, length-set,
}
use mathlib.Core.Path.{subst}
use t_cnico_file_system_pt.State.Types.{State, done, Inode, free, taken, t_file, DirEntry}
use t_cnico_file_system_pt.State.Bytes.{Memory}
use t_cnico_file_system_pt.State.Inodes.{store_inode, inode_alloc, inode_create, create_file}
use t_cnico_file_system_pt.State.Dir.{add_dir_entry}
use t_cnico_file_system_pt.State.Dir.Listing.{lookup, insert, has_room, insert-IsTidy}
use t_cnico_file_system_pt.State.Dir.Laws.{IsFileName, insert-IsDistinct}
use t_cnico_file_system_pt.State.Dir.Links.{IsAbsent-of_free, insert-Links, insert-IsOneToOne}
use t_cnico_file_system_pt.Invariant.Defs.{
  IsSound, IsDirectory, IsFileInode, root_entries, root_inode,
}
use t_cnico_file_system_pt.Invariant.Changes.{set_inode, take_inode, set_data}
use t_cnico_file_system_pt.Invariant.Calls.{store_inode-eq, put_inode}
use t_cnico_file_system_pt.Invariant.Root.{Rewrites}
use t_cnico_file_system_pt.Invariant.Delete.{inode_delete-eq}
use t_cnico_file_system_pt.Operations.Mutex.{unlock_and_return}
use t_cnico_file_system_pt.Operations.Open.{CString, slash, open_created}
use t_cnico_file_system_pt.Operations.Open.Handle.{finish_open}

abbrev pub new_file : Inode
new_file = record { i_node_type = t_file; i_size = 0; i_data_block = minus_one }

-- The state once the inode `i` is a new file's.
abbrev pub with_file : State → ℕ → State
with_file s i = record s {
  freeinode_ts = set s.freeinode_ts i taken;
  inode_table = set s.inode_table i new_file;
}

-- With the directory's block rewritten.
abbrev pub listed_in : State → ℕ → Memory → State
listed_in s i m = record (with_file s i) { fs_data = m }

pub insert-no_room :
    (es : List DirEntry) (name : List ℕ) (z : ℤ) → has_room es ≡ false → insert es name z ≡ es
unfolding insert has_room
insert-no_room [] name z h = refl
insert-no_room (e ∷ es) name z h = ground (arith, insert-no_room es name z)

pub new_file-IsFileInode : (rb : ℕ) (s : State) → IsFileInode rb s.params new_file
new_file-IsFileInode rb s = record {
  size_fits = omega arith;
  has_block = λ p. absurd (omega arith);
}

module _ {rb : ℕ} {s : State} (ok : IsSound rb s) (i : ℕ) (inside : i < s.max_inode_count)
    (is_free : get_elem? s.freeinode_ts i ≡ some free) where
  pub not_root : i ≢ 0
  not_root z = ground (arith, ok.root_taken, z)

  pub with_file-IsSound : IsSound rb (with_file s i)
  with_file-IsSound =
      take_inode i new_file not_root
        (get_elem?-set_self s.inode_table i new_file (omega (arith, ok.shape.inodes)))
        (new_file-IsFileInode rb s) (set_inode i new_file not_root (new_file-IsFileInode rb s) ok)

  create_file-eq :
      (w : Inode)
      → w.i_node_type ≡ t_file
      → create_file (pos i) (record s {
        freeinode_ts = set s.freeinode_ts i taken;
        inode_table = set s.inode_table i w;
      })
        ≡ done (pos i, with_file s i)
  unfolding create_file store_inode
  create_file-eq w e = ground (
    arith,
    e,
    get_elem?-set_self s.inode_table i w (omega (arith, ok.shape.inodes)),
    length-set s.inode_table i w,
    ok.shape.inodes,
    set-set s.inode_table i w new_file,
  )

  inode_create-eq :
      inode_alloc s ≡ done (pos i, put_inode i s)
      → inode_create t_file s ≡ done (pos i, with_file s i)
  unfolding inode_create
  inode_create-eq eq =
      let (v, at) = get_elem?-lt s.inode_table i (omega (arith, ok.shape.inodes)) in
      ground (
        arith,
        eq,
        at,
        store_inode-eq {s = put_inode i s}
            (omega (arith, ok.shape, length-set s.freeinode_ts i taken)) i
            (record v { i_node_type = t_file }) inside,
        create_file-eq (record v { i_node_type = t_file }) refl,
      )

  with_file_links : IsDirectory (set s.freeinode_ts i taken) (root_entries rb s)
  with_file_links = with_file-IsSound.directory

  inserted :
      (name : CString)
      → IsFileName name
      → lookup (root_entries rb s) name ≡ minus_one
      → IsDirectory (set s.freeinode_ts i taken) (insert (root_entries rb s) name (pos i))
  inserted name f new = record {
    tidy = insert-IsTidy (root_entries rb s) name (pos i) refl ok.directory.tidy;
    distinct = insert-IsDistinct (root_entries rb s) name (pos i) f new ok.directory.distinct;
    links =
        insert-Links (set s.freeinode_ts i taken) (root_entries rb s) name (pos i)
          (
            i,
            refl,
            not_root,
            get_elem?-set_self s.freeinode_ts i taken (omega (arith, ok.shape.inode_states)),
          )
          with_file_links.links;
    one_to_one =
        insert-IsOneToOne (root_entries rb s) name (pos i)
          (IsAbsent-of_free s.freeinode_ts (root_entries rb s) i is_free ok.directory.links)
          ok.directory.one_to_one;
  }

  pub listed_in-IsSound :
      (name : CString) (m : Memory)
      → IsFileName name
      → lookup (root_entries rb s) name ≡ minus_one
      → Rewrites rb (with_file s i) (insert (root_entries rb s) name (pos i)) m
      → IsSound rb (listed_in s i m)
  listed_in-IsSound name m f new w =
      set_data m
        (subst (IsDirectory (set s.freeinode_ts i taken)) (sym w.becomes) (inserted name f new))
        with_file-IsSound

  -- The entry is written: the handle is opened.
  pub open_created_listed :
      (name : CString) (m : Memory)
      → inode_alloc s ≡ done (pos i, put_inode i s)
      → add_dir_entry (root_inode rb s.params) name (pos i) (with_file s i)
        ≡ done (pos 0, listed_in s i m)
      → open_created (pos 0) (slash ∷ name) s ≡ finish_open (pos i) 0 (listed_in s i m)
  unfolding open_created
  open_created_listed name m eq added =
      ground (
        arith,
        inode_create-eq eq,
        get_elem?-set_ne s.inode_table new_file not_root,
        ok.root,
        added,
      )

  -- There is no room: the inode is freed again.
  pub open_created_full :
      (name : CString) (m : Memory)
      → inode_alloc s ≡ done (pos i, put_inode i s)
      → add_dir_entry (root_inode rb s.params) name (pos i) (with_file s i)
        ≡ done (minus_one, listed_in s i m)
      → IsSound rb (listed_in s i m)
      → open_created (pos 0) (slash ∷ name) s
        ≡ done (
          minus_one,
          record s {
            inode_table = set s.inode_table i new_file;
            fs_data = m;
            mutex_locked = false;
          },
        )
  unfolding open_created unlock_and_return
  open_created_full name m eq added sound = ground (
    arith,
    inode_create-eq eq,
    get_elem?-set_ne s.inode_table new_file not_root,
    ok.root,
    added,
    inode_delete-eq sound i new_file s.free_blocks
        (get_elem?-set_self s.freeinode_ts i taken (omega (arith, ok.shape.inode_states)))
        (get_elem?-set_self s.inode_table i new_file (omega (arith, ok.shape.inodes)))
        (inl (refl, refl)),
    set-set s.freeinode_ts i taken free,
    set_same s.freeinode_ts i free is_free,
  )
