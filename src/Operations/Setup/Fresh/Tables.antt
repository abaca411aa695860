-- ===== src/Operations/Setup/Fresh/Tables.antt =====
-- What `malloc` gives, the loops over new tables, and a new directory, for `tfs_init`.
use t_cnico_file_system_pt.Prelude.{
  ℕ, zero, suc, ◌+◌, ◌*◌, ◌≤◌, ◌<◌, ◌≡◌, ◌≢◌, inl, inr, refl, ap, ◌∙◌, arith, ℤ, minus_one,
  is_minus_one, List, [], ◌∷◌, some, get_elem?, true, false, length, if◌then◌else◌, replicate,
  int_half, ssize_half,
}
use t_cnico_file_system_pt.State.Types.{
  State, TfsParams, done, AllocationState, free, taken, DirEntry, dir_entry_size, Fs, InodeType,
  pure, ◌>>=◌, ◌>>◌,
}
use t_cnico_file_system_pt.State.Bytes.{
  Memory, poke, int_bytes, peek, peek_int, int_of_bytes, peek_int-poke, peek-poke_disjoint,
}
use t_cnico_file_system_pt.State.Tables.FirstFree.{AllTaken}
use t_cnico_file_system_pt.State.Inodes.{label_entries, store_inode, load_inode, create_by_type}
use t_cnico_file_system_pt.State.Init.{Allocation, mark_free, is_null, array, byte_array}
use t_cnico_file_system_pt.State.Dir.{peek_entry}
use t_cnico_file_system_pt.State.Dir.Listing.{AllFree, IsTidy, lookup-AllFree}
use t_cnico_file_system_pt.State.Dir.Laws.{IsDistinct}
use t_cnico_file_system_pt.State.Dir.Links.{Links, IsOneToOne}
use t_cnico_file_system_pt.State.Dir.Refine.{entries}
use t_cnico_file_system_pt.Invariant.Defs.{IsDirectory}

pub AllFree-IsDirectory :
    (states : List AllocationState) (es : List DirEntry) → AllFree es → IsDirectory states es
AllFree-IsDirectory states es f = record {
  tidy = tidy es f;
  distinct = distinct es f;
  links = links es f;
  one_to_one = one es f;
}
  where
    tidy : (es : List DirEntry) → AllFree es → IsTidy es
    tidy [] f = tt
    tidy (e ∷ es) f = inr f

    distinct : (es : List DirEntry) → AllFree es → IsDistinct es
    distinct [] f = tt
    distinct (e ∷ es) f = (λ s v m. lookup-AllFree es s f.1, distinct es f.1)

    links : (es : List DirEntry) → AllFree es → Links states es
    links [] f = tt
    links (e ∷ es) f = (λ l. absurd (ground (arith, l, f.0)), links es f.1)

    one : (es : List DirEntry) → AllFree es → IsOneToOne es
    one [] f = tt
    one (e ∷ es) f = (λ l. absurd (ground (arith, l, f.0)), one es f.1)

pub mark_free-eq :
    (n : ℕ) (t : List AllocationState) → length t ≡ n → mark_free n t ≡ done (replicate n free)
unfolding mark_free
mark_free-eq zero [] h = refl
mark_free-eq zero (a ∷ t) h = absurd (omega arith)
mark_free-eq (suc n) [] h = absurd (omega arith)
mark_free-eq (suc n) (a ∷ t) h = ground (arith, mark_free-eq n t)

-- The entries that `label_entries` has labelled are free.
pub label_entries-AllFree :
    (n size off : ℕ) (m : Memory)
    → off + n * dir_entry_size ≤ size
    → (m' : Memory) × (label_entries n size off m ≡ done m')
      × AllFree (entries m' off n)
      × ((o k : ℕ) → o + k ≤ off → peek m' o k ≡ peek m o k)
unfolding label_entries entries peek_entry
label_entries-AllFree zero size off m h = (m, refl, tt, λ o k l. refl)
label_entries-AllFree (suc n) size off m h =
    let m1 = poke m (off + 40) (int_bytes minus_one) in
    let (m', e, all, same) = label_entries-AllFree n size (off + dir_entry_size) m1 (omega arith) in
    let label : peek_int m' (off + 40) ≡ minus_one =
      ap int_of_bytes (same (off + 40) 4 (omega arith))
      ∙ peek_int-poke m (off + 40) minus_one (omega arith) in
    (
      m',
      ground arith,
      (rw label refl, all),
      λ o k l.
          same o k (omega arith)
          ∙ peek-poke_disjoint m (off + 40) (int_bytes minus_one) o k (inl (omega arith)),
    )

-- What `malloc` gives for the parameters: not NULL, but arrays of the sizes asked for, whose entries
-- an `int` counts; and the parameters ask for an inode, a block and a byte in it at least.
pub record IsAllocated (alloc : Allocation) (p : TfsParams) : Type 0 where
  pub inodes_given : is_null alloc.inodes ≡ false
  pub inode_states_given : is_null alloc.inode_states ≡ false
  pub bytes_given : is_null alloc.bytes ≡ false
  pub block_states_given : is_null alloc.block_states ≡ false
  pub open_files_given : is_null alloc.open_files ≡ false
  pub open_file_states_given : is_null alloc.open_file_states ≡ false
  pub inodes : length (array alloc.inodes) ≡ p.max_inode_count
  pub inode_states : length (array alloc.inode_states) ≡ p.max_inode_count
  pub bytes : alloc.bytes_size ≡ p.max_block_count * p.block_size
  pub block_states : length (array alloc.block_states) ≡ p.max_block_count
  pub open_files : length (array alloc.open_files) ≡ p.max_open_files_count
  pub open_file_states : length (array alloc.open_file_states) ≡ p.max_open_files_count
  pub some_inodes : 0 < p.max_inode_count
  pub some_blocks : 0 < p.max_block_count
  pub some_bytes : 0 < p.block_size
  pub inodes_fit : p.max_inode_count ≤ int_half
  pub blocks_fit : p.max_block_count ≤ int_half
  pub bytes_fit : p.max_block_count * p.block_size < ssize_half

-- The state that `state_init` leaves.
abbrev pub blank : Allocation → TfsParams → State → State
blank alloc p s = record s {
  params = p;
  is_set_up = true;
  inode_table = (array alloc.inodes);
  freeinode_ts = replicate p.max_inode_count free;
  fs_data = (byte_array alloc.bytes);
  fs_data_size = alloc.bytes_size;
  free_blocks = replicate p.max_block_count free;
  open_file_table = (array alloc.open_files);
  free_open_file_entries = replicate p.max_open_files_count free;
}

pub none_taken : (n j : ℕ) → get_elem? (replicate n free) j ≢ some taken
none_taken zero j e = absurd (ground (arith, e))
none_taken (suc n) zero e = absurd (ground (arith, e))
none_taken (suc n) (suc j) e = none_taken n j e

pub first_free : (n k : ℕ) → AllTaken k (replicate n free) → k ≡ 0
first_free n zero before = refl
first_free n (suc k) before = absurd (none_taken n 0 (before 0 (omega arith)))

pub bind-done {ℓ κ} :
    {A : Type ℓ} {B : Type κ} (m : Fs A) (f : A → Fs B) (s : State) (a : A) (s' : State)
    → m s ≡ done (a, s')
    → (m >>= f) s ≡ f a s'
bind-done m f s a s' e = rw (e, ◌>>=◌) refl

-- `inode_create` after the allocation.
abbrev pub create_from : InodeType → ℤ → Fs ℤ
create_from i_type inumber = if is_minus_one inumber then pure minus_one else do
  inode ← load_inode inumber
  store_inode inumber (record inode { i_node_type = i_type })
  create_by_type i_type inumber

pub element {ℓ} : {A : Type ℓ} (xs : List A) → 0 < length xs → (x : A) × (get_elem? xs 0 ≡ some x)
element [] h = absurd (omega arith)
element (x ∷ xs) h = (x, refl)
