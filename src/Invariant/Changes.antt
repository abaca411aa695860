-- ===== src/Invariant/Changes.antt =====
-- The changes of state that the operations are made of, each of which keeps the invariant.
use t_cnico_file_system_pt.Prelude.{
  ℕ, ◌≡◌, ◌≢◌, ◌⊎◌, inl, inr, ap, ◌∙◌, arith, pos, some, get_elem?, set, get_elem?-set_cases,
  get_elem?-set_ne, length-set, Bool,
}
use mathlib.Core.Path.{subst}
use t_cnico_file_system_pt.State.Types.{State, Inode, OpenFileEntry, AllocationState, free, taken}
use t_cnico_file_system_pt.State.Bytes.{Memory}
use t_cnico_file_system_pt.State.Dir.Links.{IsAbsent, Links-taken, Links-free}
use t_cnico_file_system_pt.Invariant.Defs.{
  IsFileInode, IsOpenFile, IsDirectory, root_entries, IsSound,
}

module _ {rb : ℕ} {s : State} where
  -- A file's inode is overwritten by a file's inode.
  pub set_inode :
      (k : ℕ) (v : Inode)
      → k ≢ 0
      → IsFileInode rb s.params v
      → IsSound rb s
      → IsSound rb (record s { inode_table = set s.inode_table k v })
  set_inode k v nz good ok = record {
    shape = omega (arith, ok.shape, length-set s.inode_table k v);
    root = get_elem?-set_ne s.inode_table v nz ∙ ok.root;
    root_taken = ok.root_taken;
    root_block = ok.root_block;
    files = λ i w n t e. still w (ok.files i w n t) (get_elem?-set_cases s.inode_table k i v w e);
    open_files = λ h e t o. opened e (ok.open_files h e t o);
    directory = ok.directory;
  }
    where
      still :
          {i : ℕ} (w : Inode)
          → (get_elem? s.inode_table i ≡ some w → IsFileInode rb s.params w)
          → ((k ≡ i) × (v ≡ w)) ⊎ (get_elem? s.inode_table i ≡ some w)
          → IsFileInode rb s.params w
      still w old (inl (_, e)) = subst (IsFileInode rb s.params) e good
      still w old (inr e) = old e

      opened :
          (e : OpenFileEntry)
          → IsOpenFile rb s.params s.inode_table e
          → IsOpenFile rb s.params (set s.inode_table k v) e
      opened e o = record {
        inumber = o.inumber;
        is_inumber = o.is_inumber;
        not_root = o.not_root;
        in_table = o.in_table;
        in_block = o.in_block;
        inode = λ w p. still w (o.inode w) (get_elem?-set_cases s.inode_table k o.inumber v w p);
      }

  -- The state of a block other than the root's changes.
  pub set_block_state :
      (k : ℕ) (a : AllocationState)
      → k ≢ rb
      → IsSound rb s
      → IsSound rb (record s { free_blocks = set s.free_blocks k a })
  set_block_state k a ne ok = record {
    shape = omega (arith, ok.shape, length-set s.free_blocks k a);
    root = ok.root;
    root_taken = ok.root_taken;
    root_block = get_elem?-set_ne s.free_blocks a ne ∙ ok.root_block;
    files = ok.files;
    open_files = ok.open_files;
    directory = ok.directory;
  }

  -- An inode is taken that holds a file's fields.
  pub take_inode :
      (k : ℕ) (v : Inode)
      → k ≢ 0
      → get_elem? s.inode_table k ≡ some v
      → IsFileInode rb s.params v
      → IsSound rb s
      → IsSound rb (record s { freeinode_ts = set s.freeinode_ts k taken })
  take_inode k v nz e good ok = record {
    shape = omega (arith, ok.shape, length-set s.freeinode_ts k taken);
    root = ok.root;
    root_taken = get_elem?-set_ne s.freeinode_ts taken nz ∙ ok.root_taken;
    root_block = ok.root_block;
    files = λ i w n t p. elim (get_elem?-set_cases s.freeinode_ts k i taken taken t) [
      | inl (same, _) ↦
          subst (IsFileInode rb s.params) (cc (ap (get_elem? s.inode_table) same)) good
      | inr t' ↦ ok.files i w n t' p
    ];
    open_files = ok.open_files;
    directory = record {
      tidy = ok.directory.tidy;
      distinct = ok.directory.distinct;
      links = Links-taken s.freeinode_ts (root_entries rb s) k ok.directory.links;
      one_to_one = ok.directory.one_to_one;
    };
  }

  -- An inode is freed that has no entry in the directory.
  pub free_inode :
      (k : ℕ)
      → k ≢ 0
      → IsAbsent (pos k) (root_entries rb s)
      → IsSound rb s
      → IsSound rb (record s { freeinode_ts = set s.freeinode_ts k free })
  free_inode k nz absent ok = record {
    shape = omega (arith, ok.shape, length-set s.freeinode_ts k free);
    root = ok.root;
    root_taken = get_elem?-set_ne s.freeinode_ts free nz ∙ ok.root_taken;
    root_block = ok.root_block;
    files = λ i w n t p. elim (get_elem?-set_cases s.freeinode_ts k i free taken t) [
      | inl (_, same) ↦ cc
      | inr t' ↦ ok.files i w n t' p
    ];
    open_files = ok.open_files;
    directory = record {
      tidy = ok.directory.tidy;
      distinct = ok.directory.distinct;
      links = Links-free s.freeinode_ts (root_entries rb s) k absent ok.directory.links;
      one_to_one = ok.directory.one_to_one;
    };
  }

  -- Memory changes, with the root's entries in order.
  pub set_data :
      (m : Memory)
      → IsDirectory s.freeinode_ts (root_entries rb (record s { fs_data = m }))
      → IsSound rb s
      → IsSound rb (record s { fs_data = m })
  set_data m d ok = record {
    shape = omega (arith, ok.shape);
    root = ok.root;
    root_taken = ok.root_taken;
    root_block = ok.root_block;
    files = ok.files;
    open_files = ok.open_files;
    directory = d;
  }

  -- An entry of the open file table is written for a file.
  pub set_open_file :
      (k : ℕ) (v : OpenFileEntry)
      → IsOpenFile rb s.params s.inode_table v
      → IsSound rb s
      → IsSound rb (record s { open_file_table = set s.open_file_table k v })
  set_open_file k v good ok = record {
    shape = omega (arith, ok.shape, length-set s.open_file_table k v);
    root = ok.root;
    root_taken = ok.root_taken;
    root_block = ok.root_block;
    files = ok.files;
    open_files = λ h e t o. elim (get_elem?-set_cases s.open_file_table k h v e o) [
      | inl (_, same) ↦ subst (IsOpenFile rb s.params s.inode_table) same good
      | inr o' ↦ ok.open_files h e t o'
    ];
    directory = ok.directory;
  }

  -- An entry of the open file table that holds a file's fields is taken, or any one is freed.
  pub take_open_file :
      (k : ℕ) (v : OpenFileEntry)
      → get_elem? s.open_file_table k ≡ some v
      → IsOpenFile rb s.params s.inode_table v
      → IsSound rb s
      → IsSound rb (record s { free_open_file_entries = set s.free_open_file_entries k taken })
  take_open_file k v at good ok = record {
    shape = omega (arith, ok.shape, length-set s.free_open_file_entries k taken);
    root = ok.root;
    root_taken = ok.root_taken;
    root_block = ok.root_block;
    files = ok.files;
    open_files = λ h e t o. elim (get_elem?-set_cases s.free_open_file_entries k h taken taken t) [
      | inl (same, _) ↦
          subst (IsOpenFile rb s.params s.inode_table) (cc (ap (get_elem? s.open_file_table) same))
            good
      | inr t' ↦ ok.open_files h e t' o
    ];
    directory = ok.directory;
  }

  pub free_open_file :
      (k : ℕ)
      → IsSound rb s
      → IsSound rb (record s { free_open_file_entries = set s.free_open_file_entries k free })
  free_open_file k ok = record {
    shape = omega (arith, ok.shape, length-set s.free_open_file_entries k free);
    root = ok.root;
    root_taken = ok.root_taken;
    root_block = ok.root_block;
    files = ok.files;
    open_files = λ h e t o. elim (get_elem?-set_cases s.free_open_file_entries k h free taken t) [
      | inl (_, same) ↦ cc
      | inr t' ↦ ok.open_files h e t' o
    ];
    directory = ok.directory;
  }

  -- The mutex is taken or released.
  pub set_mutex : (b : Bool) → IsSound rb s → IsSound rb (record s { mutex_locked = b })
  set_mutex b ok = record {
    shape = omega (arith, ok.shape);
    root = ok.root;
    root_taken = ok.root_taken;
    root_block = ok.root_block;
    files = ok.files;
    open_files = ok.open_files;
    directory = ok.directory;
  }
