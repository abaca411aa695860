-- ===== src/Operations/Unlink/Effect.antt =====
-- What `tfs_unlink` does to the directory, and that it keeps the invariant.
use t_cnico_file_system_pt.Prelude.{
  ℕ, ◌≡◌, ◌≢◌, refl, sym, ap, ◌∙◌, arith, ℤ, pos, minus_one, List, ◌∷◌, some, get_elem?, set, true,
  false, get_elem?-lt, get_elem?-set_self, length-set, ◌<◌, get_elem?_bound, length,
}
use mathlib.Core.Path.{subst}
use t_cnico_file_system_pt.State.Types.{State, done, Inode, free, taken, AllocationState}
use t_cnico_file_system_pt.State.Bytes.{Memory}
use t_cnico_file_system_pt.State.Dir.{clear_dir_entry}
use t_cnico_file_system_pt.State.Dir.Listing.{IsCString, lookup, remove, remove-IsTidy}
use t_cnico_file_system_pt.State.Dir.Laws.{remove-IsDistinct}
use t_cnico_file_system_pt.State.Dir.Links.{
  IsLinked, IsAbsent, lookup-IsLinked, remove-Links, remove-IsOneToOne, remove-lookup-IsAbsent,
}
use t_cnico_file_system_pt.Invariant.Defs.{
  root_inside, root_in_table, IsSound, IsDirectory, root_entries, root_inode,
}
use t_cnico_file_system_pt.Invariant.Changes.{set_data, free_inode, set_mutex}
use t_cnico_file_system_pt.Invariant.Calls.{inode_get-eq}
use t_cnico_file_system_pt.Invariant.Root.{clear_dir_entry-root}
use t_cnico_file_system_pt.Invariant.Delete.{Released, released, Released-IsSound, inode_delete-eq}
use t_cnico_file_system_pt.Operations.Mutex.{locked-eq, unlock_and_return-eq, unlocked-eq}
use t_cnico_file_system_pt.Operations.Open.Handle.{path_to, tfs_lookup-root}
use t_cnico_file_system_pt.Operations.Open.{CString, valid_pathname}
use t_cnico_file_system_pt.Operations.Unlink.{unlink_body, tfs_unlink}

remove-IsDirectory :
    (states : List AllocationState) {es : List _} (name : CString)
    → IsDirectory states es
    → IsDirectory states (remove es name)
remove-IsDirectory states {es} name d = record {
  tidy = remove-IsTidy es name d.tidy;
  distinct = remove-IsDistinct es name d.distinct;
  links = remove-Links states es name d.links;
  one_to_one = remove-IsOneToOne es name d.one_to_one;
}

module _ {rb : ℕ} {s : State} (ok : IsSound rb s) (c : ℕ) (name : CString) where
  unlink_body_missing :
      lookup (root_entries rb s) (c ∷ name) ≡ minus_one
      → unlink_body (path_to c name) s ≡ done (minus_one, record s { mutex_locked = false })
  unfolding unlink_body valid_pathname
  unlink_body_missing e = ground (
    arith,
    inode_get-eq ok.shape 0 (root_in_table ok),
    ok.root,
    tfs_lookup-root ok c name,
    unlock_and_return-eq {A = ℤ} minus_one minus_one s,
  )

  -- The state after the removal of the file `i`.
  abbrev after : ℕ → List AllocationState → Memory → State
  after i fb m = record s {
    fs_data = m;
    free_blocks = fb;
    freeinode_ts = set s.freeinode_ts i free;
    mutex_locked = false;
  }

  unlink_body_found :
      (i : ℕ) (v : Inode) (fb : List AllocationState) (m : Memory)
      → lookup (root_entries rb s) (c ∷ name) ≡ pos i
      → get_elem? s.freeinode_ts i ≡ some taken
      → get_elem? s.inode_table i ≡ some v
      → Released rb s v fb
      → clear_dir_entry
          (root_inode rb s.params)
          (c ∷ name)
          (record s { free_blocks = fb; freeinode_ts = set s.freeinode_ts i free })
        ≡ done (
          pos 0,
          record s { free_blocks = fb; freeinode_ts = set s.freeinode_ts i free; fs_data = m },
        )
      → unlink_body (path_to c name) s ≡ done (pos 0, after i fb m)
  unfolding unlink_body valid_pathname
  unlink_body_found i v fb m e t at r cleared = ground (
    arith,
    inode_get-eq ok.shape 0 (root_in_table ok),
    ok.root,
    tfs_lookup-root ok c name,
    inode_delete-eq ok i v fb t at r,
    unlock_and_return-eq {A = ℤ} minus_one (pos 0)
        (record s { free_blocks = fb; freeinode_ts = set s.freeinode_ts i free; fs_data = m }),
  )

-- The state that a successful `tfs_unlink` leaves.
pub record Unlinked (rb : ℕ) (s : State) (name : CString) (s' : State) : Type 0 where
  pub sound : IsSound rb s'
  pub unlocked : s'.mutex_locked ≡ false
  pub listed : root_entries rb s' ≡ remove (root_entries rb s) name
  pub same_handles : s'.free_open_file_entries ≡ s.free_open_file_entries
  pub freed :
      (i : ℕ) → lookup (root_entries rb s) name ≡ pos i → get_elem? s'.freeinode_ts i ≡ some free

module _ {rb : ℕ} {s : State} (ok : IsSound rb s) (c : ℕ) (name : CString) where
  after-IsSound :
      (i : ℕ) (v : Inode) (fb : List AllocationState) (m : Memory)
      → i ≢ 0
      → IsSound rb (record s { free_blocks = fb })
      → lookup (root_entries rb s) (c ∷ name) ≡ pos i
      → root_entries rb (record s { fs_data = m }) ≡ remove (root_entries rb s) (c ∷ name)
      → IsSound rb (record s {
        fs_data = m;
        free_blocks = fb;
        freeinode_ts = set s.freeinode_ts i free;
        mutex_locked = false;
      })
  after-IsSound i v fb m nz okb e listed =
      set_mutex false (free_inode i nz absent (set_data m directory okb))
    where
      absent : IsAbsent (pos i) (root_entries rb (record s { fs_data = m }))
      absent = subst (IsAbsent (pos i)) (sym listed) (
          rw e at (
            remove-lookup-IsAbsent (root_entries rb s) (c ∷ name) ok.directory.one_to_one
              (λ z. ground arith)))

      directory : IsDirectory s.freeinode_ts (root_entries rb (record s { fs_data = m }))
      directory =
          subst (IsDirectory s.freeinode_ts) (sym listed)
            (remove-IsDirectory s.freeinode_ts (c ∷ name) ok.directory)

  unlink_linked :
      IsCString (c ∷ name)
      → IsLinked s.freeinode_ts (lookup (root_entries rb s) (c ∷ name))
      → lookup (root_entries rb s) (c ∷ name) ≢ minus_one
      → (s' : State) × (unlink_body (path_to c name) s ≡ done (pos 0, s'))
        × Unlinked rb s (c ∷ name) s'
  unlink_linked w (i, e, nz, t) found =
      let (v, at) = get_elem?-lt s.inode_table i in_table in
      let (fb, r) = released ok v (ok.files i v nz t at) in
      let okb = Released-IsSound ok v fb r in
      let (m, cleared, rewrites) =
        clear_dir_entry-root
          {s = record s { free_blocks = fb; freeinode_ts = set s.freeinode_ts i free }}
          (omega (arith, okb.shape, length-set s.freeinode_ts i free)) (root_inside ok) c name
          ok.directory.tidy w found in
      (
        after ok c name i fb m,
        unlink_body_found ok c name i v fb m e t at r cleared,
        record {
          sound = after-IsSound i v fb m nz okb e rewrites.becomes;
          unlocked = refl;
          listed = rewrites.becomes;
          same_handles = refl;
          freed = λ j p.
              ap (get_elem? (set s.freeinode_ts i free)) (same p)
              ∙ get_elem?-set_self s.freeinode_ts i free (get_elem?_bound s.freeinode_ts i taken t);
        },
      )
    where
      same : {j : ℕ} → lookup (root_entries rb s) (c ∷ name) ≡ pos j → j ≡ i
      same p = ground arith

      in_table : i < length s.inode_table
      in_table =
          omega (
            arith,
            get_elem?_bound s.freeinode_ts i taken t,
            ok.shape.inodes,
            ok.shape.inode_states,
          )

unlink_from :
    {rb : ℕ} {s : State} (c : ℕ) (name : CString)
    → IsSound rb s
    → IsCString (c ∷ name)
    → lookup (root_entries rb s) (c ∷ name) ≢ minus_one
    → (s' : State) × (unlink_body (path_to c name) s ≡ done (pos 0, s'))
      × Unlinked rb s (c ∷ name) s'
unlink_from {rb} {s} c name ok w found =
    unlink_linked ok c name w
      (lookup-IsLinked s.freeinode_ts (root_entries rb s) (c ∷ name) ok.directory.links found) found

-- Between operations, `tfs_unlink` of the path of a file that the root directory lists returns 0.
-- It erases the directory's first entry of that name and no other, frees the file's inode,
-- releases the mutex and keeps the invariant.
pub tfs_unlink-removes :
    {rb : ℕ} {s : State} (c : ℕ) (name : CString)
    → IsSound rb s
    → s.mutex_locked ≡ false
    → IsCString (c ∷ name)
    → lookup (root_entries rb s) (c ∷ name) ≢ minus_one
    → (s' : State) × (tfs_unlink (path_to c name) s ≡ done (pos 0, s'))
      × Unlinked rb s (c ∷ name) s'
unfolding tfs_unlink
tfs_unlink-removes {rb} {s} c name ok unheld w found =
    let (s', e, u) = unlink_from c name (set_mutex true ok) w found in
    (
      s',
      locked-eq {A = ℤ} minus_one (unlink_body (path_to c name)) s unheld ∙ e,
      record {
        sound = u.sound;
        unlocked = u.unlocked;
        listed = u.listed;
        same_handles = u.same_handles;
        freed = u.freed;
      },
    )

-- Between operations, `tfs_unlink` of the path of a file that the root directory does not list
-- returns -1 and leaves the state as it was.
pub tfs_unlink-missing :
    {rb : ℕ} {s : State} (c : ℕ) (name : CString)
    → IsSound rb s
    → s.mutex_locked ≡ false
    → lookup (root_entries rb s) (c ∷ name) ≡ minus_one
    → tfs_unlink (path_to c name) s ≡ done (minus_one, s)
unfolding tfs_unlink
tfs_unlink-missing {rb} {s} c name ok unheld missing =
    locked-eq {A = ℤ} minus_one (unlink_body (path_to c name)) s unheld
    ∙ unlink_body_missing (set_mutex true ok) c name missing
    ∙ ap (λ t. done (minus_one, t)) (unlocked-eq s unheld)
