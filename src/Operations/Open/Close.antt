-- ===== src/Operations/Open/Close.antt =====
-- `tfs_close` of fs/operations.c, and what the operations do to a handle that is not open.
use t_cnico_file_system_pt.Prelude.{
  ℕ, ◌≡◌, ◌≢◌, refl, ap, ◌∙◌, arith, ℤ, pos, negsuc, minus_one, List, [], none, some, get_elem?,
  set, true, false, Bool-cases, get_elem?_bound, get_elem?-set_self, inl, inr, get_elem?-lt, ltb,
}
use t_cnico_file_system_pt.State.Types.{State, Outcome, done, free, taken}
use t_cnico_file_system_pt.State.Tables.{get_open_file_entry, remove_from_open_file_table}
use t_cnico_file_system_pt.Invariant.Defs.{HasShape, IsSound}
use t_cnico_file_system_pt.Invariant.Changes.{free_open_file, set_mutex}
use t_cnico_file_system_pt.Operations.Mutex.{locked-eq, unlock_and_return, unlocked-eq}
use t_cnico_file_system_pt.Operations.Open.{close_body, tfs_close}
use t_cnico_file_system_pt.Operations.Transfer.{read_body, write_body, tfs_read, tfs_write}

-- A handle that is negative, out of range, or free.
abbrev pub IsClosed : State → ℤ → Type 0
IsClosed s (negsuc n) = Unit {0}
IsClosed s (pos h) = get_elem? s.free_open_file_entries h ≢ some taken

get_open_file_entry-none :
    {s : State} → HasShape s → (z : ℤ) → IsClosed s z → get_open_file_entry z s ≡ done (none, s)
unfolding get_open_file_entry
get_open_file_entry-none shape (negsuc n) closed = refl
get_open_file_entry-none {s} shape (pos h) closed =
    elim (Bool-cases (ltb h s.max_open_files_count)) [
      | inl p ↦
          let (a, e) =
            get_elem?-lt s.free_open_file_entries h (ground (arith, shape.open_file_states)) in
          ground (arith, e, closed)
      | inr p ↦ ground arith
    ]

closed_body :
    {s : State}
    → HasShape s
    → (z : ℤ) → IsClosed s z
    → (close_body z s ≡ done (minus_one, record s { mutex_locked = false }))
      × ((buffer : List ℕ) (n : ℕ)
          → write_body z buffer n s ≡ done (minus_one, record s { mutex_locked = false }))
      × ((n : ℕ) → read_body z n s ≡ done ((minus_one, []), record s { mutex_locked = false }))
unfolding close_body write_body read_body unlock_and_return
closed_body shape z closed = (
  ground (arith, get_open_file_entry-none shape z closed),
  λ buffer n. ground (arith, get_open_file_entry-none shape z closed),
  λ n. ground (arith, get_open_file_entry-none shape z closed),
)

-- Between operations, `tfs_close`, `tfs_write` and `tfs_read` of a handle that is negative, out of
-- range or not open return -1, read nothing, and leave the state as it was.
pub closed_handle :
    {rb : ℕ} {s : State}
    → IsSound rb s
    → s.mutex_locked ≡ false
    → (z : ℤ) → IsClosed s z
    → (tfs_close z s ≡ done (minus_one, s))
      × ((buffer : List ℕ) (n : ℕ) → tfs_write z buffer n s ≡ done (minus_one, s))
      × ((n : ℕ) → tfs_read z n s ≡ done ((minus_one, []), s))
unfolding tfs_close tfs_write tfs_read
closed_handle {rb} {s} ok unheld z closed =
    let (c, w, r) = closed_body (set_mutex true ok).shape z (closed_still z closed) in
    (
      locked-eq {A = ℤ} minus_one (close_body z) s unheld ∙ c ∙ same minus_one,
      λ buffer n.
          locked-eq {A = ℤ} minus_one (write_body z buffer n) s unheld
          ∙ w buffer n
          ∙ same minus_one,
      λ n.
          locked-eq {A = ℤ × List ℕ} (minus_one, []) (read_body z n) s unheld
          ∙ r n
          ∙ same (minus_one, []),
    )
  where
    same :
        {A : Type 0} (a : A)
        → ◌≡◌ {A = Outcome (A × State)} (done (a, record s { mutex_locked = false })) (done (a, s))
    same a = ap (λ t. done (a, t)) (unlocked-eq s unheld)

    closed_still : (z : ℤ) → IsClosed s z → IsClosed (record s { mutex_locked = true }) z
    closed_still (pos h) c = c
    closed_still (negsuc n) c = c

abbrev pub closed_at : State → ℕ → State
closed_at s h = record s { free_open_file_entries = set s.free_open_file_entries h free }

close_body-eq :
    {s : State} (h : ℕ)
    → HasShape s
    → get_elem? s.free_open_file_entries h ≡ some taken
    → close_body (pos h) s ≡ done (pos 0, record (closed_at s h) { mutex_locked = false })
unfolding close_body get_open_file_entry remove_from_open_file_table unlock_and_return
close_body-eq {s} h shape e =
    ground (arith, get_elem?_bound s.free_open_file_entries h taken e, shape.open_file_states)

-- Between operations, `tfs_close` of an open handle returns 0, frees the handle and changes nothing
-- else. It keeps the invariant, and the handle is closed from then on.
pub tfs_close-closes :
    {rb : ℕ} {s : State} (h : ℕ)
    → IsSound rb s
    → s.mutex_locked ≡ false
    → get_elem? s.free_open_file_entries h ≡ some taken
    → (tfs_close (pos h) s ≡ done (pos 0, closed_at s h))
      × IsSound rb (closed_at s h)
      × IsClosed (closed_at s h) (pos h)
unfolding tfs_close
tfs_close-closes {rb} {s} h ok unheld e = (
  locked-eq {A = ℤ} minus_one (close_body (pos h)) s unheld
      ∙ close_body-eq h (set_mutex true ok).shape e
      ∙ ap (λ t. done (pos 0, t)) (unlocked-eq (closed_at s h) unheld),
  free_open_file h ok,
  λ f. ground (
    arith,
    get_elem?-set_self s.free_open_file_entries h free
        (get_elem?_bound s.free_open_file_entries h taken e),
  ),
)
