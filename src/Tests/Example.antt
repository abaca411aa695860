-- ===== src/Tests/Example.antt =====
-- A file system that fits the invariant: the file `a` of three bytes, open twice, and a free inode.
use t_cnico_file_system_pt.Prelude.{
  ℕ, zero, suc, ◌++◌, ◌≡◌, ◌≢◌, refl, sym, ap, inl, inr, arith, pos, minus_one, List, [], ◌∷◌, some,
  replicate, get_or, get_elem?, true, false,
}
use mathlib.Core.Path.{subst}
use mathlib.Core.Option.{some-injective}
use t_cnico_file_system_pt.State.Types.{
  State, TfsParams, Inode, t_file, OpenFileEntry, free, taken, DirEntry,
}
use t_cnico_file_system_pt.State.Bytes.{peek, int_of_bytes, padded, strncmp_eq}
use t_cnico_file_system_pt.State.Dir.{peek_entry}
use t_cnico_file_system_pt.State.Dir.Listing.{lookup, filled, erased}
use t_cnico_file_system_pt.State.Dir.Refine.{entries}
use t_cnico_file_system_pt.Invariant.Defs.{
  HasShape, IsSound, IsFileInode, IsOpenFile, IsDirectory, root_entries, root_inode,
}
use t_cnico_file_system_pt.Operations.Transfer.WriteCall.Ends.{IsHandle}

abbrev pub example_params : TfsParams
example_params = record {
  max_inode_count = 3;
  max_block_count = 3;
  max_open_files_count = 3;
  block_size = 90;
}

-- The root's block, with the entries `a` and a free one, and the three bytes of the next block.
abbrev example_bytes : List ℕ
example_bytes =
    (97 ∷ replicate 39 0)
    ++ (1 ∷ 0 ∷ 0 ∷ 0 ∷ [])
    ++ replicate 40 0
    ++ (255 ∷ 255 ∷ 255 ∷ 255 ∷ 0 ∷ 0 ∷ 7 ∷ 8 ∷ 9 ∷ [])

abbrev pub example_file : Inode
example_file = record { i_node_type = t_file; i_size = 3; i_data_block = pos 1 }

abbrev pub example_handle : OpenFileEntry
example_handle = record { of_inumber = pos 1; of_offset = 1 }

abbrev pub example : State
example = record {
  params = example_params;
  is_set_up = true;
  inode_table =
      root_inode 0 example_params
      ∷ example_file
      ∷ record { i_node_type = t_file; i_size = 0; i_data_block = minus_one }
      ∷ [];
  freeinode_ts = taken ∷ taken ∷ free ∷ [];
  fs_data = λ a. get_or example_bytes a 0;
  fs_data_size = 270;
  free_blocks = taken ∷ taken ∷ free ∷ [];
  open_file_table =
      example_handle ∷ example_handle ∷ record { of_inumber = minus_one; of_offset = 0 } ∷ [];
  free_open_file_entries = taken ∷ taken ∷ free ∷ [];
  mutex_locked = false;
}

abbrev pub example_entries : List DirEntry
example_entries = filled (97 ∷ []) (pos 1) ∷ erased ∷ []

pub example-entries : root_entries 0 example ≡ example_entries
unfolding entries peek int_of_bytes padded peek_entry
example-entries = refl

example-HasShape : HasShape example
example-HasShape = record {
  inodes = refl;
  inode_states = refl;
  block_states = refl;
  open_files = refl;
  open_file_states = refl;
  bytes = refl;
  some_bytes = omega arith;
  inodes_fit = omega arith;
  blocks_fit = omega arith;
  bytes_fit = omega arith;
}

example_file-IsFileInode : IsFileInode 0 example_params example_file
example_file-IsFileInode = record {
  size_fits = omega arith;
  has_block = λ h. (1, refl, omega arith, λ e. omega arith);
}

example_files :
    (i : ℕ) (v : Inode)
    → i ≢ 0
    → get_elem? example.freeinode_ts i ≡ some taken
    → get_elem? example.inode_table i ≡ some v
    → IsFileInode 0 example_params v
example_files zero v n t e = absurd (n refl)
example_files (suc zero) v n t e =
    subst (IsFileInode 0 example_params) (some-injective example_file v e) example_file-IsFileInode
example_files (suc (suc zero)) v n t e = absurd (ground (arith, t))
example_files (suc (suc (suc i))) v n t e = absurd (ground (arith, t))

pub example_file_at :
    (v : Inode) → get_elem? example.inode_table 1 ≡ some v → IsFileInode 0 example_params v
example_file_at v e =
    subst (IsFileInode 0 example_params) (some-injective example_file v e) example_file-IsFileInode

example_handle-IsOpenFile : IsOpenFile 0 example_params example.inode_table example_handle
example_handle-IsOpenFile = record {
  inumber = 1;
  is_inumber = refl;
  not_root = λ e. omega arith;
  in_table = omega arith;
  in_block = omega arith;
  inode = example_file_at;
}

example_open_files :
    (h : ℕ) (e : OpenFileEntry)
    → get_elem? example.free_open_file_entries h ≡ some taken
    → get_elem? example.open_file_table h ≡ some e
    → IsOpenFile 0 example_params example.inode_table e
example_open_files zero e t g =
    subst (IsOpenFile 0 example_params example.inode_table) (some-injective example_handle e g)
      example_handle-IsOpenFile
example_open_files (suc zero) e t g =
    subst (IsOpenFile 0 example_params example.inode_table) (some-injective example_handle e g)
      example_handle-IsOpenFile
example_open_files (suc (suc zero)) e t g = absurd (ground (arith, t))
example_open_files (suc (suc (suc h))) e t g = absurd (ground (arith, t))

pub example_entries-IsDirectory : IsDirectory example.freeinode_ts example_entries
unfolding padded lookup
example_entries-IsDirectory = record {
  tidy = inl (
    record { terminated = inr (inl refl); sized = refl; unnamed = λ e. absurd (ground (arith, e)) },
    inr (refl, tt),
  );
  distinct = (λ s v m. refl, (λ s v m. refl, tt));
  links = (λ l. (1, refl, (λ e. omega arith), refl), (λ l. absurd (ground (arith, l)), tt));
  one_to_one = (λ l. ((λ k. absurd (ground (arith, k))), tt), (λ l. tt, tt));
}

pub example-IsSound : IsSound 0 example
example-IsSound = record {
  shape = example-HasShape;
  root = refl;
  root_taken = refl;
  root_block = refl;
  files = example_files;
  open_files = example_open_files;
  directory =
      subst (IsDirectory example.freeinode_ts) (sym example-entries) example_entries-IsDirectory;
}

pub example-IsHandle : IsHandle 0 example 0 example_handle 1 example_file
example-IsHandle = record { opened = refl; entry = refl; inumber = refl; inode = refl }

pub example-IsHandle_second : IsHandle 0 example 1 example_handle 1 example_file
example-IsHandle_second = record { opened = refl; entry = refl; inumber = refl; inode = refl }

pub example-listed : lookup (root_entries 0 example) (97 ∷ []) ≡ pos 1
unfolding lookup padded strncmp_eq
example-listed = ap (λ es. lookup es (97 ∷ [])) example-entries

pub example-unlisted : lookup (root_entries 0 example) (98 ∷ []) ≡ minus_one
unfolding lookup padded strncmp_eq
example-unlisted = ap (λ es. lookup es (98 ∷ [])) example-entries
