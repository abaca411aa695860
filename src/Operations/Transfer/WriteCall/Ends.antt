-- ===== src/Operations/Transfer/WriteCall/Ends.antt =====
-- How a call of `tfs_write` of fs/operations.c ends.
use t_cnico_file_system_pt.Prelude.{
  ℕ, ◌+◌, ◌*◌, ◌≤◌, ◌<◌, ◌≡◌, ◌≢◌, ◌⊎◌, inl, inr, refl, ℤ, pos, minus_one, List, some, get_elem?,
  false, Bool-cases, get_elem?_bound, get_elem?-set_self, get_elem?-set_ne, set, length,
  if◌then◌else◌, take, ltb,
}
use t_cnico_file_system_pt.State.Types.{
  State, Outcome, done, Inode, OpenFileEntry, AllocationState, free, taken,
}
use t_cnico_file_system_pt.State.Bytes.{peek, peek-poke, peek-poke_disjoint}
use t_cnico_file_system_pt.State.Tables.FirstFree.{AllTaken}
use t_cnico_file_system_pt.Invariant.Defs.{root_entries, IsSound}
use t_cnico_file_system_pt.Invariant.Changes.{set_mutex}
use t_cnico_file_system_pt.Operations.Transfer.Write.{
  IsWritable, wrote, wrote-IsSound, root_entries-poke,
}

-- The handle `h` is open, with the entry `e`, on the inode `v` of number `i`.
pub record IsHandle (rb : ℕ) (s : State) (h : ℕ) (e : OpenFileEntry) (i : ℕ) (v : Inode)
    : Type 0 where
  pub opened : get_elem? s.free_open_file_entries h ≡ some taken
  pub entry : get_elem? s.open_file_table h ≡ some e
  pub inumber : e.of_inumber ≡ pos i
  pub inode : get_elem? s.inode_table i ≡ some v

-- A write to a file of `size` bytes takes the first free block where the file is empty, and else none.
abbrev pub TakesBlock : List AllocationState → ℕ → ℕ → List AllocationState → Type 0
TakesBlock before size block after =
    ((0 < size) × (after ≡ before))
    ⊎ ((size ≡ 0)
        × (get_elem? before block ≡ some free)
        × AllTaken block before
        × (after ≡ set before block taken))

-- What `s'` has of a write of `bs` at the offset of `e`, where `blocks` are the states of the blocks
-- before it.
pub record WrittenOver (blocks : List AllocationState) (rb : ℕ) (s : State) (h : ℕ)
    (e : OpenFileEntry) (i : ℕ) (v : Inode) (bs : List ℕ) (s' : State) : Type 0 where
  pub sound : IsSound rb s'
  pub unlocked : s'.mutex_locked ≡ false
  pub block : ℕ
  pub inode : Inode
  pub at_inumber : get_elem? s'.inode_table i ≡ some inode
  pub in_block : inode.i_data_block ≡ pos block
  pub size :
      inode.i_size
      ≡ (if ltb v.i_size (e.of_offset + length bs) then e.of_offset + length bs else v.i_size)
  pub offset :
      get_elem? s'.open_file_table h ≡ some (record e { of_offset = e.of_offset + length bs })
  pub bytes : peek s'.fs_data (block * s.block_size + e.of_offset) (length bs) ≡ bs
  pub other_bytes :
      (o n : ℕ)
      → (o + n ≤ block * s.block_size + e.of_offset)
        ⊎ (block * s.block_size + e.of_offset + length bs ≤ o)
      → peek s'.fs_data o n ≡ peek s.fs_data o n
  pub takes : TakesBlock blocks v.i_size block s'.free_blocks
  pub same_block : 0 < v.i_size → v.i_data_block ≡ pos block
  pub states : s'.free_open_file_entries ≡ s.free_open_file_entries
  pub params : s'.params ≡ s.params
  pub listed : root_entries rb s' ≡ root_entries rb s
  pub other_files : (j : ℕ) → h ≢ j → get_elem? s'.open_file_table j ≡ get_elem? s.open_file_table j
  pub other_inodes : (j : ℕ) → i ≢ j → get_elem? s'.inode_table j ≡ get_elem? s.inode_table j

abbrev pub Written :
    ℕ → (s : State) → ℕ → OpenFileEntry → ℕ → Inode → List ℕ → (s' : State) → Type 0
Written rb s h e i v bs s' = WrittenOver s.free_blocks rb s h e i v bs s'

-- The ways in which a write of up to `n` bytes ends.
pub data WriteEnds (rb : ℕ) (s : State) (h : ℕ) (e : OpenFileEntry) (i : ℕ) (v : Inode)
    (buffer : List ℕ) (n : ℕ) (o : Outcome (ℤ × State)) : Type 0 where
  nothing :
      n ≡ 0
      → o ≡ done (pos 0, record s { mutex_locked = false })
      → WriteEnds rb s h e i v buffer n o
  no_space :
      0 < n
      → v.i_size ≡ 0
      → AllTaken s.max_block_count s.free_blocks
      → o ≡ done (minus_one, record s { mutex_locked = false })
      → WriteEnds rb s h e i v buffer n o
  written :
      (s' : State)
      → 0 < n
      → o ≡ done (pos n, s')
      → Written rb s h e i v (take n buffer) s'
      → WriteEnds rb s h e i v buffer n o

module _ {rb : ℕ} {s : State} (ok : IsSound rb s) {h i b : ℕ} {e : OpenFileEntry} {v : Inode}
    (w : IsWritable rb s h e i v b) where
  pub wrote-Written :
      (blocks : List AllocationState)
      → TakesBlock blocks v.i_size b s.free_blocks
      → (bs : List ℕ) → 0 < length bs
      → e.of_offset + length bs ≤ s.block_size
      → WrittenOver blocks rb s h e i v bs (record (wrote s h e i v b bs) { mutex_locked = false })
  wrote-Written blocks tb bs p fits = record {
    sound = set_mutex false (wrote-IsSound ok w bs p fits);
    unlocked = refl;
    block = b;
    inode =
        if ltb v.i_size (e.of_offset + length bs)
        then record v { i_size = e.of_offset + length bs }
        else v;
    at_inumber = elim (Bool-cases (ltb v.i_size (e.of_offset + length bs))) [
      | inl q ↦
          rw q (get_elem?-set_self s.inode_table i _ (get_elem?_bound s.inode_table i v w.inode))
      | inr q ↦ rw q w.inode
    ];
    in_block = elim (Bool-cases (ltb v.i_size (e.of_offset + length bs))) [
      | inl q ↦ rw q w.block
      | inr q ↦ rw q w.block
    ];
    size = elim (Bool-cases (ltb v.i_size (e.of_offset + length bs))) [
      | inl q ↦ rw q refl
      | inr q ↦ rw q refl
    ];
    offset =
        get_elem?-set_self s.open_file_table h _ (get_elem?_bound s.open_file_table h e w.entry);
    bytes = peek-poke s.fs_data (b * s.block_size + e.of_offset) bs (length bs) refl;
    other_bytes = peek-poke_disjoint s.fs_data (b * s.block_size + e.of_offset) bs;
    takes = tb;
    same_block = λ p. w.block;
    states = refl;
    params = refl;
    listed = root_entries-poke ok b e.of_offset bs w.not_root_block fits;
    other_files = λ j ne. get_elem?-set_ne s.open_file_table _ ne;
    other_inodes = λ j ne. elim (Bool-cases (ltb v.i_size (e.of_offset + length bs))) [
      | inl q ↦ rw q (get_elem?-set_ne s.inode_table _ ne)
      | inr q ↦ rw q refl
    ];
  }
