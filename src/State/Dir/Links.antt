-- ===== src/State/Dir/Links.antt =====
-- The inumbers of a directory: each live entry names an inode in use, and no two the same one.
use t_cnico_file_system_pt.Prelude.{
  ℕ, ℤ, pos, minus_one, List, [], ◌∷◌, true, some, ◌≡◌, ◌≢◌, inl, inr, refl, sym, ap, ◌∙◌, arith,
  Bool-cases, get_elem?, set, get_elem?-set_ne, get_elem?-set_self, get_elem?_bound, ==_iff, ◌==◌,
}
use t_cnico_file_system_pt.State.Types.{DirEntry, AllocationState, free, taken}
use t_cnico_file_system_pt.State.Dir.Listing.{is_live, matches, lookup, insert, remove}

-- The inumber of an entry in use: not the root's, and taken.
abbrev pub IsLinked : List AllocationState → ℤ → Type 0
IsLinked states z = (i : ℕ) × (z ≡ pos i) × (i ≢ 0) × (get_elem? states i ≡ some taken)

abbrev pub Links : List AllocationState → List DirEntry → Type 0
Links states [] = Unit
Links states (e ∷ es) = (is_live e ≡ true → IsLinked states e.d_inumber) × Links states es

abbrev pub IsAbsent : ℤ → List DirEntry → Type 0
IsAbsent z [] = Unit
IsAbsent z (e ∷ es) = (is_live e ≡ true → e.d_inumber ≢ z) × IsAbsent z es

abbrev pub IsOneToOne : List DirEntry → Type 0
IsOneToOne [] = Unit
IsOneToOne (e ∷ es) = (is_live e ≡ true → IsAbsent e.d_inumber es) × IsOneToOne es

pub lookup-IsLinked :
    (states : List AllocationState) (es : List DirEntry) (s : List ℕ)
    → Links states es
    → lookup es s ≢ minus_one
    → IsLinked states (lookup es s)
unfolding lookup
lookup-IsLinked states [] s l h = absurd (h refl)
lookup-IsLinked states (e ∷ es) s l h = elim (Bool-cases (matches e s)) [
  | inl m ↦ rw m (l.0 (ground arith))
  | inr m ↦ rw m (lookup-IsLinked states es s l.1 (rw m at h))
]

pub Links-taken :
    (states : List AllocationState) (es : List DirEntry) (k : ℕ)
    → Links states es
    → Links (set states k taken) es
Links-taken states [] k l = tt
Links-taken states (e ∷ es) k l = (λ h. still (l.0 h), Links-taken states es k l.1)
  where
    still : IsLinked states e.d_inumber → IsLinked (set states k taken) e.d_inumber
    still (i, z, n, t) = elim (Bool-cases (k == i)) [
      | inl same ↦ (
        i,
        z,
        n,
        ap (get_elem? (set states k taken)) (sym ((==_iff k i).0 same))
            ∙ get_elem?-set_self states k taken
                (get_elem?_bound states k taken (ap (get_elem? states) ((==_iff k i).0 same) ∙ t)),
      )
      | inr other ↦ (i, z, n, get_elem?-set_ne states taken (λ e. ground arith) ∙ t)
    ]

pub Links-free :
    (states : List AllocationState) (es : List DirEntry) (k : ℕ)
    → IsAbsent (pos k) es
    → Links states es
    → Links (set states k free) es
Links-free states [] k a l = tt
Links-free states (e ∷ es) k a l = (λ h. still (a.0 h) (l.0 h), Links-free states es k a.1 l.1)
  where
    still :
        e.d_inumber ≢ pos k → IsLinked states e.d_inumber → IsLinked (set states k free) e.d_inumber
    still ne (i, z, n, t) =
        (i, z, n, get_elem?-set_ne states free (λ same. ne (z ∙ ap pos (sym same))) ∙ t)

-- An inode that is free has no entry.
pub IsAbsent-of_free :
    (states : List AllocationState) (es : List DirEntry) (k : ℕ)
    → get_elem? states k ≡ some free
    → Links states es
    → IsAbsent (pos k) es
IsAbsent-of_free states [] k f l = tt
IsAbsent-of_free states (e ∷ es) k f l =
    (λ h same. differ (l.0 h) same, IsAbsent-of_free states es k f l.1)
  where
    differ : IsLinked states e.d_inumber → e.d_inumber ≡ pos k → ⊥
    differ (i, z, n, t) same = ground arith

pub insert-Links :
    (states : List AllocationState) (es : List DirEntry) (s : List ℕ) (z : ℤ)
    → IsLinked states z
    → Links states es
    → Links states (insert es s z)
unfolding insert
insert-Links states [] s z h l = tt
insert-Links states (e ∷ es) s z h l = elim (Bool-cases (is_live e)) [
  | inl p ↦ rw p (λ q. l.0 p, insert-Links states es s z h l.1)
  | inr p ↦ rw p (λ q. h, l.1)
]

insert-IsAbsent :
    (es : List DirEntry) (s : List ℕ) (z y : ℤ) → z ≢ y → IsAbsent y es → IsAbsent y (insert es s z)
unfolding insert
insert-IsAbsent [] s z y h a = tt
insert-IsAbsent (e ∷ es) s z y h a = elim (Bool-cases (is_live e)) [
  | inl p ↦ rw p (λ q. a.0 p, insert-IsAbsent es s z y h a.1)
  | inr p ↦ rw p (λ q. h, a.1)
]

pub insert-IsOneToOne :
    (es : List DirEntry) (s : List ℕ) (z : ℤ)
    → IsAbsent z es
    → IsOneToOne es
    → IsOneToOne (insert es s z)
unfolding insert
insert-IsOneToOne [] s z a o = tt
insert-IsOneToOne (e ∷ es) s z a o = elim (Bool-cases (is_live e)) [
  | inl p ↦ rw p (
    λ q. insert-IsAbsent es s z e.d_inumber (λ h. a.0 p (sym h)) (o.0 p),
    insert-IsOneToOne es s z a.1 o.1,
  )
  | inr p ↦ rw p (λ q. a.1, o.1)
]

pub remove-Links :
    (states : List AllocationState) (es : List DirEntry) (s : List ℕ)
    → Links states es
    → Links states (remove es s)
unfolding remove
remove-Links states [] s l = tt
remove-Links states (e ∷ es) s l = elim (Bool-cases (matches e s)) [
  | inl p ↦ rw p (λ q. cc, l.1)
  | inr p ↦ rw p (l.0, remove-Links states es s l.1)
]

remove-IsAbsent :
    (es : List DirEntry) (s : List ℕ) (y : ℤ) → IsAbsent y es → IsAbsent y (remove es s)
unfolding remove
remove-IsAbsent [] s y a = tt
remove-IsAbsent (e ∷ es) s y a = elim (Bool-cases (matches e s)) [
  | inl p ↦ rw p (λ q. cc, a.1)
  | inr p ↦ rw p (a.0, remove-IsAbsent es s y a.1)
]

pub remove-IsOneToOne : (es : List DirEntry) (s : List ℕ) → IsOneToOne es → IsOneToOne (remove es s)
unfolding remove
remove-IsOneToOne [] s o = tt
remove-IsOneToOne (e ∷ es) s o = elim (Bool-cases (matches e s)) [
  | inl p ↦ rw p (λ q. cc, o.1)
  | inr p ↦ rw p (λ q. remove-IsAbsent es s e.d_inumber (o.0 q), remove-IsOneToOne es s o.1)
]

absent-ne-lookup :
    (es : List DirEntry) (s : List ℕ) (y : ℤ)
    → IsAbsent y es
    → lookup es s ≢ minus_one
    → lookup es s ≢ y
unfolding lookup
absent-ne-lookup [] s y a h = absurd (h refl)
absent-ne-lookup (e ∷ es) s y a h = elim (Bool-cases (matches e s)) [
  | inl m ↦ rw m (a.0 (ground arith))
  | inr m ↦ rw m (absent-ne-lookup es s y a.1 (rw m at h))
]

-- What a name led to has no entry left once the name is removed.
pub remove-lookup-IsAbsent :
    (es : List DirEntry) (s : List ℕ)
    → IsOneToOne es
    → lookup es s ≢ minus_one
    → IsAbsent (lookup es s) (remove es s)
unfolding lookup remove
remove-lookup-IsAbsent [] s o h = tt
remove-lookup-IsAbsent (e ∷ es) s o h = elim (Bool-cases (matches e s)) [
  | inl m ↦ rw m (λ q. cc, o.0 (ground arith))
  | inr m ↦ rw m (
    λ q same. absent-ne-lookup es s e.d_inumber (o.0 q) (rw m at h) (sym same),
    remove-lookup-IsAbsent es s o.1 (rw m at h),
  )
]
