-- ===== src/Operations/Sequences.antt =====
-- What a call of fs/operations.c sees of the calls before it.
use t_cnico_file_system_pt.Prelude.{
  ℕ, ℤ, pos, minus_one, ◌∷◌, false, true, some, get_elem?, set, get_elem?-set_self, get_elem?_bound,
  ◌≡◌, ◌≢◌, refl, sym, ap, ◌∙◌, arith,
}
use mathlib.Core.Path.{subst}
use t_cnico_file_system_pt.State.Types.{State, Outcome, done, free, taken}
use t_cnico_file_system_pt.State.Dir.Listing.{lookup, IsCString}
use t_cnico_file_system_pt.State.Dir.Laws.{
  IsFileName, lookup-insert_self, lookup-insert_ne, lookup-remove_self, lookup-remove_ne,
}
use t_cnico_file_system_pt.Invariant.Defs.{IsSound, root_entries}
use t_cnico_file_system_pt.Operations.Open.{CString, tfs_open, tfs_close, has_creat}
use t_cnico_file_system_pt.Operations.Open.Close.{closed_at, tfs_close-closes}
use t_cnico_file_system_pt.State.Tables.FirstFree.{AllTaken}
use t_cnico_file_system_pt.Operations.Open.Create.Steps.{new_file}
use t_cnico_file_system_pt.Operations.Open.Handle.{path_to, table_full, handle}
use t_cnico_file_system_pt.Operations.Open.Existing.{
  opened_offset, Reopens, tfs_open-Reopens, tfs_open-missing,
}
use t_cnico_file_system_pt.Operations.Open.Create.{
  Creates, no_inode, no_entry, created, tfs_open-Creates,
}
use t_cnico_file_system_pt.Operations.Unlink.{tfs_unlink}
use t_cnico_file_system_pt.Operations.Unlink.Effect.{tfs_unlink-removes, tfs_unlink-missing}

-- The directories of `s` and `s'` agree on every file but that of the name.
abbrev pub SameFiles : ℕ → CString → State → State → Type 0
SameFiles rb name s s' =
    (other : CString)
    → IsCString other
    → name ≢ other
    → lookup (root_entries rb s') other ≡ lookup (root_entries rb s) other

-- Between operations, after a `tfs_unlink` of the path of a file that the root directory lists, a
-- second `tfs_unlink` of it and a `tfs_open` of it without the create flag return -1 and change
-- nothing. Every other name leads to the file it led to before.
pub tfs_unlink-gone :
    {rb : ℕ} {s : State} (c : ℕ) (name : CString)
    → IsSound rb s
    → s.mutex_locked ≡ false
    → IsCString (c ∷ name)
    → lookup (root_entries rb s) (c ∷ name) ≢ minus_one
    → (s' : State) × (tfs_unlink (path_to c name) s ≡ done (pos 0, s'))
      × (tfs_unlink (path_to c name) s' ≡ done (minus_one, s'))
      × ((mode : ℕ)
          → has_creat mode ≡ false
          → tfs_open (path_to c name) mode s' ≡ done (minus_one, s'))
      × SameFiles rb (c ∷ name) s s'
tfs_unlink-gone {rb} {s} c name ok u v found =
    let (s', e, after) = tfs_unlink-removes c name ok u v found in
    let gone : lookup (root_entries rb s') (c ∷ name) ≡ minus_one =
      ap (λ es. lookup es (c ∷ name)) after.listed
      ∙ lookup-remove_self (root_entries rb s) (c ∷ name) ok.directory.distinct v in
    (
      s',
      e,
      tfs_unlink-missing c name after.sound after.unlocked gone,
      (λ mode no. tfs_open-missing c name mode after.sound after.unlocked gone no),
      λ t w ne.
          ap (λ es. lookup es t) after.listed
          ∙ lookup-remove_ne (root_entries rb s) (c ∷ name) t ok.directory.tidy v w ne,
    )

-- `o` is an open of the inode `i` in `s` at the offset 0, through the first free handle.
pub record OpensAtStart (rb : ℕ) (s : State) (i : ℕ) (o : Outcome (ℤ × State)) : Type 0 where
  pub number : ℕ
  pub result : State
  pub returns : o ≡ done (pos number, result)
  pub was_free : get_elem? s.free_open_file_entries number ≡ some free
  pub first : AllTaken number s.free_open_file_entries
  pub opened : get_elem? result.free_open_file_entries number ≡ some taken
  pub entry :
      get_elem? result.open_file_table number ≡ some (record { of_inumber = pos i; of_offset = 0 })
  pub sound : IsSound rb result
  pub unlocked : result.mutex_locked ≡ false

-- An empty file opens at 0 in every mode, where a handle is free.
empty-OpensAtStart :
    {rb : ℕ} {s : State} (c : ℕ) (name : CString) (mode i h : ℕ)
    → IsSound rb s
    → s.mutex_locked ≡ false
    → lookup (root_entries rb s) (c ∷ name) ≡ pos i
    → get_elem? s.inode_table i ≡ some new_file
    → get_elem? s.free_open_file_entries h ≡ some free
    → OpensAtStart rb s i (tfs_open (path_to c name) mode s)
empty-OpensAtStart {rb} {s} c name mode i h ok unheld e at f =
    let r = tfs_open-Reopens c name mode i ok unheld e in
    let same : r.inode ≡ new_file = ground (arith, r.at_inumber, at) in
    let zero_offset : opened_offset mode r.inode ≡ 0 =
      ap (opened_offset mode) same ∙ new_file-offset mode in
    elim r.opens [
      | table_full all eq sound ↦ absurd (
          ground (
            arith,
            all h (
                omega (
                  arith,
                  get_elem?_bound s.free_open_file_entries h free f,
                  ok.shape.open_file_states,
                )),
            f,
          ))
      | handle k g before eq sound ↦ record {
        number = k;
        result = _;
        returns = eq;
        was_free = g;
        first = before;
        opened =
            get_elem?-set_self s.free_open_file_entries k taken
              (get_elem?_bound s.free_open_file_entries k free g);
        entry =
            get_elem?-set_self s.open_file_table k _ (
              omega (
                arith,
                get_elem?_bound s.free_open_file_entries k free g,
                ok.shape.open_file_states,
                ok.shape.open_files,
              ))
            ∙ ap (λ n. some (record { of_inumber = pos i; of_offset = n })) zero_offset;
        sound = sound;
        unlocked = refl;
      }
    ]
  where
    new_file-offset : (mode : ℕ) → opened_offset mode new_file ≡ 0
    new_file-offset mode = ground arith

-- A successful `tfs_open` that created the file leaves a state in which the name is listed, on an
-- empty inode, and the handle is open.
Creates-success :
    {rb : ℕ} {s s' : State} {name : CString} {h : ℕ} {o : Outcome (ℤ × State)}
    → IsFileName name
    → lookup (root_entries rb s) name ≡ minus_one
    → Creates rb s name o
    → o ≡ done (pos h, s')
    → (i : ℕ) × (get_elem? s.freeinode_ts i ≡ some free)
      × IsSound rb s'
      × (s'.mutex_locked ≡ false)
      × (lookup (root_entries rb s') name ≡ pos i)
      × (get_elem? s'.inode_table i ≡ some new_file)
      × (get_elem? s'.free_open_file_entries h ≡ some taken)
      × SameFiles rb name s s'
Creates-success f new (no_inode all e) eq = absurd (ground (arith, sym e ∙ eq))
Creates-success f new (no_entry t r e sound same states un handles) eq =
    absurd (ground (arith, sym e ∙ eq))
Creates-success {rb} {s} {s'} {name} {h} f new
      (created i t room fr before sound listed at states handles opens) eq =
    elim opens [
      | table_full all e ok ↦ absurd (ground (arith, sym e ∙ eq))
      | handle k fk bk e ok ↦
          subst
            (λ u.
              (i : ℕ) × (get_elem? s.freeinode_ts i ≡ some free)
              × IsSound rb u
              × (u.mutex_locked ≡ false)
              × (lookup (root_entries rb u) name ≡ pos i)
              × (get_elem? u.inode_table i ≡ some new_file)
              × (get_elem? u.free_open_file_entries h ≡ some taken)
              × SameFiles rb name s u)
            (ap (state_of s) (sym e ∙ eq))
            (
              i,
              fr,
              ok,
              refl,
              ap (λ es. lookup es name) listed
                  ∙ lookup-insert_self (root_entries rb s) name (pos i) f refl room new,
              at,
              ap (get_elem? (set t.free_open_file_entries k taken))
                    (ground (arith, sym (sym e ∙ eq)))
                  ∙ get_elem?-set_self t.free_open_file_entries k taken
                      (get_elem?_bound t.free_open_file_entries k free fk),
              λ u v ne.
                  ap (λ es. lookup es u) listed
                  ∙ lookup-insert_ne (root_entries rb s) name u (pos i) f v ne,
            )
    ]
  where
    state_of : State → Outcome (ℤ × State) → State
    state_of d (done (z, u)) = u
    state_of d o = d

-- Between operations, let a `tfs_open` with the create flag of the path of a file name that the
-- directory does not list return a handle. The directory then lists the name under an inode that
-- was free, with an empty file, and every other name leads to the file it led to before. A
-- `tfs_close` of the handle succeeds, and any `tfs_open` of the path after it, whatever its mode,
-- returns the first free handle, open on that inode at the offset 0. Before the close, a `tfs_open`
-- of the path opens that inode too, or returns -1 where no handle is free.
pub tfs_open-created :
    {rb : ℕ} {s s' : State} (c : ℕ) (name : CString) (mode h : ℕ)
    → IsSound rb s
    → s.mutex_locked ≡ false
    → IsFileName (c ∷ name)
    → lookup (root_entries rb s) (c ∷ name) ≡ minus_one
    → has_creat mode ≡ true
    → tfs_open (path_to c name) mode s ≡ done (pos h, s')
    → (i : ℕ) × (get_elem? s.freeinode_ts i ≡ some free)
      × (lookup (root_entries rb s') (c ∷ name) ≡ pos i)
      × (get_elem? s'.inode_table i ≡ some new_file)
      × (tfs_close (pos h) s' ≡ done (pos 0, closed_at s' h))
      × ((mode' : ℕ)
          → OpensAtStart rb (closed_at s' h) i (tfs_open (path_to c name) mode' (closed_at s' h)))
      × ((mode' : ℕ) → Reopens rb s' i mode' (tfs_open (path_to c name) mode' s'))
      × SameFiles rb (c ∷ name) s s'
tfs_open-created {s' = s'} c name mode h ok un f new t e =
    let (i, fr, ok', un', listed, at, opened, same) =
      Creates-success f new (tfs_open-Creates c name mode ok un f new t) e in
    let (closes, ok'', _) = tfs_close-closes h ok' un' opened in
    let bound = get_elem?_bound s'.free_open_file_entries h taken opened in
    let is_free = get_elem?-set_self s'.free_open_file_entries h free bound in
    (
      i,
      fr,
      listed,
      at,
      closes,
      λ mode'. empty-OpensAtStart c name mode' i h ok'' un' listed at is_free,
      λ mode'. tfs_open-Reopens c name mode' i ok' un' listed,
      same,
    )
