-- ===== src/Operations/Open/Existing.antt =====
-- `tfs_open` of fs/operations.c on a file that exists, or that is not to be created.
use t_cnico_file_system_pt.Prelude.{
  ℕ, ◌≤◌, ◌<◌, ◌≡◌, ◌≢◌, ◌⊎◌, inl, inr, refl, sym, ap, ◌∙◌, arith, ℤ, pos, minus_one, List, ◌∷◌,
  some, get_elem?, set, true, false, Bool-cases, get_elem?_bound, get_elem?-set_self, if◌then◌else◌,
  get_elem?-lt, set_same, length-set,
}
use mathlib.Core.Path.{subst}
use t_cnico_file_system_pt.State.Types.{State, Outcome, done, Inode, AllocationState, free, taken}
use t_cnico_file_system_pt.State.Dir.Listing.{lookup}
use t_cnico_file_system_pt.State.Dir.Links.{IsLinked, lookup-IsLinked}
use t_cnico_file_system_pt.Invariant.Defs.{IsSound, IsFileInode, root_entries, root_in_table}
use t_cnico_file_system_pt.Invariant.Changes.{set_inode, set_mutex}
use t_cnico_file_system_pt.Invariant.Calls.{inode_get-eq, data_block_free-eq, store_inode-eq}
use t_cnico_file_system_pt.Invariant.Delete.{Released, released, Released-IsSound}
use t_cnico_file_system_pt.Operations.Mutex.{locked-eq, unlock_and_return, unlocked-eq}
use t_cnico_file_system_pt.Operations.Open.{
  CString, valid_pathname, truncate, open_existing, open_body, tfs_open, has_creat, has_trunc,
  has_append,
}
use t_cnico_file_system_pt.Operations.Open.Handle.{
  path_to, tfs_lookup-root, Opens, table_full, handle, finish_open, finish_open-Opens,
}

-- The inode after the truncation that the mode asks for.
abbrev pub opened_inode : ℕ → Inode → Inode
opened_inode mode v = if has_trunc mode then record v { i_size = 0 } else v

-- The block table after it.
abbrev pub IsReleased : ℕ → ℕ → State → Inode → List AllocationState → Type 0
IsReleased mode rb s v fb =
    ((has_trunc mode ≡ false) × (fb ≡ s.free_blocks))
    ⊎ ((has_trunc mode ≡ true) × Released rb s v fb)

-- The state after it.
abbrev pub opened_state : ℕ → State → ℕ → Inode → List AllocationState → State
opened_state mode s i v fb = record s {
  free_blocks = fb;
  inode_table = set s.inode_table i (opened_inode mode v);
}

-- The offset that the mode asks for.
abbrev pub opened_offset : ℕ → Inode → ℕ
opened_offset mode v = if has_append mode then (opened_inode mode v).i_size else 0

module _ {rb : ℕ} {s : State} (ok : IsSound rb s) (i : ℕ) (v : Inode) (nz : i ≢ 0)
    (used : get_elem? s.freeinode_ts i ≡ some taken) (at : get_elem? s.inode_table i ≡ some v) where
  inside : i < s.max_inode_count
  inside = omega (arith, get_elem?_bound s.inode_table i v at, ok.shape.inodes)

  truncate-eq :
      (fb : List AllocationState)
      → Released rb s v fb
      → truncate (pos i) s
        ≡ done (
          tt,
          record s {
            free_blocks = fb;
            inode_table = set s.inode_table i (record v { i_size = 0 });
          },
        )
  unfolding truncate
  truncate-eq fb (inl (z, e)) = ground (arith, at, e, kept)
    where
      kept : set s.inode_table i (record v { i_size = 0 }) ≡ s.inode_table
      kept =
          ap (set s.inode_table i) (λ j. record v { i_size = sym z j })
          ∙ set_same s.inode_table i v at
  truncate-eq fb (inr (b, ne, eb, l, p, e)) = ground (
    arith,
    at,
    eb,
    e,
    data_block_free-eq ok.shape b l,
    store_inode-eq {s = record s { free_blocks = set s.free_blocks b free }}
        (omega (arith, ok.shape, length-set s.free_blocks b free)) i (record v { i_size = 0 }),
    get_elem?_bound s.inode_table i v at,
    ok.shape.inodes,
  )

  opened_good : (mode : ℕ) → IsFileInode rb s.params (opened_inode mode v)
  opened_good mode = elim (Bool-cases (has_trunc mode)) [
    | inl t ↦ rw t (record { size_fits = omega arith; has_block = λ p. absurd (omega arith) })
    | inr t ↦ rw t (ok.files i v nz used at)
  ]

  opened_state-IsSound :
      (mode : ℕ) (fb : List AllocationState)
      → IsReleased mode rb s v fb
      → IsSound rb (opened_state mode s i v fb)
  opened_state-IsSound mode fb (inl (_, e)) =
      rw e (set_inode i (opened_inode mode v) nz (opened_good mode) ok)
  opened_state-IsSound mode fb (inr (_, r)) =
      set_inode i (opened_inode mode v) nz (opened_good mode) (Released-IsSound ok v fb r)

  at_opened :
      (mode : ℕ) (fb : List AllocationState)
      → get_elem? (opened_state mode s i v fb).inode_table i ≡ some (opened_inode mode v)
  at_opened mode fb =
      get_elem?-set_self s.inode_table i (opened_inode mode v)
        (get_elem?_bound s.inode_table i v at)

  open_existing-eq :
      (mode : ℕ) (fb : List AllocationState)
      → IsReleased mode rb s v fb
      → open_existing (pos i) mode s
        ≡ finish_open (pos i) (opened_offset mode v) (opened_state mode s i v fb)
  unfolding open_existing
  open_existing-eq mode fb (inr (t, r)) = rw t (
      ground (
        arith,
        inode_get-eq ok.shape i inside,
        t,
        truncate-eq fb r,
        get_elem?-set_self s.inode_table i (record v { i_size = 0 })
            (get_elem?_bound s.inode_table i v at),
      ))
  open_existing-eq mode fb (inl (t, e)) =
      rw (t, e, set_same s.inode_table i v at)
        (ground (arith, inode_get-eq ok.shape i inside, t, at))

  open_existing-Opens :
      (mode : ℕ) (fb : List AllocationState)
      → IsReleased mode rb s v fb
      → Opens rb
          (opened_state mode s i v fb)
          i
          (opened_offset mode v)
          (open_existing (pos i) mode s)
  open_existing-Opens mode fb r =
      subst (Opens rb (opened_state mode s i v fb) i (opened_offset mode v))
        (sym (open_existing-eq mode fb r))
        (finish_open-Opens (opened_state-IsSound mode fb r) i (opened_offset mode v) nz inside
          offset_fits
          (λ w e.
            subst (IsFileInode rb s.params) (ground (arith, e, at_opened mode fb))
              (opened_good mode)))
    where
      offset_fits : opened_offset mode v ≤ s.block_size
      offset_fits = ground (arith, (opened_good mode).size_fits)

-- What `tfs_open` does to a file `i` of the directory: its inode is truncated if the mode says so,
-- and gets an entry in the open file table at the offset that the mode asks for, if one is free.
pub record Reopens (rb : ℕ) (s : State) (i mode : ℕ) (o : Outcome (ℤ × State)) : Type 0 where
  pub inode : Inode
  pub at_inumber : get_elem? s.inode_table i ≡ some inode
  pub blocks : List AllocationState
  pub released_block : IsReleased mode rb s inode blocks
  pub opens : Opens rb (opened_state mode s i inode blocks) i (opened_offset mode inode) o

module _ {rb : ℕ} {s : State} (ok : IsSound rb s) (c : ℕ) (name : CString) (mode : ℕ) where
  blocks_after :
      (v : Inode)
      → IsFileInode rb s.params v
      → (fb : List AllocationState) × IsReleased mode rb s v fb
  blocks_after v good = elim (Bool-cases (has_trunc mode)) [
    | inl t ↦ let (fb, r) = released ok v good in (fb, inr (t, r))
    | inr t ↦ (s.free_blocks, inl (t, refl))
  ]

  open_body-found :
      (i : ℕ)
      → lookup (root_entries rb s) (c ∷ name) ≡ pos i
      → open_body (path_to c name) mode s ≡ open_existing (pos i) mode s
  unfolding open_body valid_pathname
  open_body-found i e =
      ground
        (arith, inode_get-eq ok.shape 0 (root_in_table ok), ok.root, tfs_lookup-root ok c name, e)

  open_body-missing :
      lookup (root_entries rb s) (c ∷ name) ≡ minus_one
      → has_creat mode ≡ false
      → open_body (path_to c name) mode s ≡ done (minus_one, record s { mutex_locked = false })
  unfolding open_body valid_pathname unlock_and_return
  open_body-missing e t =
      ground
        (arith, inode_get-eq ok.shape 0 (root_in_table ok), ok.root, tfs_lookup-root ok c name, e)

-- Between operations, `tfs_open` of the path of a file that the directory lists under the inode `i`
-- truncates the inode if the mode says so (its block is then free and its size 0), whether or not
-- the open file table is full. If the table is full it returns -1; otherwise it returns the first
-- free handle, for the inode at its size (mode with append) or at 0. Nothing else changes, the
-- mutex is released and the invariant holds.
pub tfs_open-Reopens :
    {rb : ℕ} {s : State} (c : ℕ) (name : CString) (mode i : ℕ)
    → IsSound rb s
    → s.mutex_locked ≡ false
    → lookup (root_entries rb s) (c ∷ name) ≡ pos i
    → Reopens rb s i mode (tfs_open (path_to c name) mode s)
unfolding tfs_open
tfs_open-Reopens {rb} {s} c name mode i ok unheld e = linked (
    lookup-IsLinked s.freeinode_ts (root_entries rb s) (c ∷ name) ok.directory.links
      (λ m. ground (arith, e, m)))
  where
    ok' : IsSound rb (record s { mutex_locked = true })
    ok' = set_mutex true ok

    unlocked :
        (v : Inode) (fb : List AllocationState) {o : Outcome (ℤ × State)}
        → Opens rb
            (opened_state mode (record s { mutex_locked = true }) i v fb)
            i
            (opened_offset mode v)
            o
        → Opens rb (opened_state mode s i v fb) i (opened_offset mode v) o
    unlocked v fb (table_full all eq sound) = table_full all eq sound
    unlocked v fb (handle h f before eq sound) = handle h f before eq sound

    linked :
        IsLinked s.freeinode_ts (lookup (root_entries rb s) (c ∷ name))
        → Reopens rb s i mode (tfs_open (path_to c name) mode s)
    linked (j, ej, nz, t) =
        let same : j ≡ i = ground (arith, e, ej) in
        let used : get_elem? s.freeinode_ts i ≡ some taken =
          ap (get_elem? s.freeinode_ts) (sym same) ∙ t in
        let nz' : i ≢ 0 = ground (arith, nz, same) in
        let (v, at) =
          get_elem?-lt s.inode_table i
            (omega (arith, get_elem?_bound s.freeinode_ts i taken used, ok.shape)) in
        let (fb, r) = blocks_after ok c name mode v (ok.files i v nz' used at) in
        record {
          inode = v;
          at_inumber = at;
          blocks = fb;
          released_block = r;
          opens =
              subst (Opens rb (opened_state mode s i v fb) i (opened_offset mode v))
                (sym (
                  locked-eq {A = ℤ} minus_one (open_body (path_to c name) mode) s unheld
                  ∙ open_body-found ok' c name mode i e))
                (unlocked v fb (open_existing-Opens ok' i v nz' used at mode fb r));
        }

-- Between operations, `tfs_open` without the create flag of the path of a file that the directory
-- does not list returns -1 and leaves the state as it was.
pub tfs_open-missing :
    {rb : ℕ} {s : State} (c : ℕ) (name : CString) (mode : ℕ)
    → IsSound rb s
    → s.mutex_locked ≡ false
    → lookup (root_entries rb s) (c ∷ name) ≡ minus_one
    → has_creat mode ≡ false
    → tfs_open (path_to c name) mode s ≡ done (minus_one, s)
unfolding tfs_open
tfs_open-missing {rb} {s} c name mode ok unheld e t =
    locked-eq {A = ℤ} minus_one (open_body (path_to c name) mode) s unheld
    ∙ open_body-missing (set_mutex true ok) c name mode e t
    ∙ ap (λ u. done (minus_one, u)) (unlocked-eq s unheld)
