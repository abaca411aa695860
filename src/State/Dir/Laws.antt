-- ===== src/State/Dir/Laws.antt =====
-- A directory is a map from names to inumbers: what `insert` and `remove` do to `lookup`.
use t_cnico_file_system_pt.Prelude.{
  ℕ, zero, suc, ◌≤◌, ◌++◌, ℤ, minus_one, is_minus_one, List, [], ◌∷◌, true, false, ◌≡◌, ◌≢◌, inl,
  inr, refl, sym, ap, ◌∙◌, arith, length, Bool-cases,
}
use mathlib.Core.Path.{ap₂}
use mathlib.Core.Bool.{false≢true}
use t_cnico_file_system_pt.State.Types.{DirEntry}
use t_cnico_file_system_pt.State.Bytes.{strncmp_eq, padded}
use t_cnico_file_system_pt.State.Dir.Listing.{
  is_live, matches, lookup, filled, erased, insert, remove, has_room, IsCString, IsTerminated,
  IsUsed, IsTidy, remove-AllFree,
}

-- What `strlen(sub_name) == 0 || strlen(sub_name) > MAX_FILE_NAME - 1` lets through.
pub record IsFileName (s : List ℕ) : Type 0 where
  pub bytes : IsCString s
  pub nonempty : s ≢ []
  pub fits : length s ≤ 39

-- A padded name matches the name itself.
strncmp_eq-padded_self :
    (k : ℕ) (s : List ℕ) → length s ≤ k → strncmp_eq (suc k) (padded k s ++ (0 ∷ [])) s ≡ true
unfolding strncmp_eq padded
strncmp_eq-padded_self zero [] h = refl
strncmp_eq-padded_self zero (c ∷ s) h = absurd (omega arith)
strncmp_eq-padded_self (suc k) [] h = refl
strncmp_eq-padded_self (suc k) (c ∷ s) h = ground (arith, strncmp_eq-padded_self k s)

-- It matches no other string.
strncmp_eq-padded :
    (k : ℕ) (s t : List ℕ)
    → length s ≤ k
    → IsCString s
    → IsCString t
    → strncmp_eq (suc k) (padded k s ++ (0 ∷ [])) t ≡ true
    → s ≡ t
unfolding strncmp_eq padded
strncmp_eq-padded zero [] [] h u v e = refl
strncmp_eq-padded zero [] (d ∷ t) h u v e = absurd (v.0 (ground arith))
strncmp_eq-padded zero (c ∷ s) t h u v e = absurd (omega arith)
strncmp_eq-padded (suc k) [] [] h u v e = refl
strncmp_eq-padded (suc k) [] (d ∷ t) h u v e = absurd (v.0 (ground arith))
strncmp_eq-padded (suc k) (c ∷ s) [] h u v e = absurd (u.0 (ground arith))
strncmp_eq-padded (suc k) (c ∷ s) (d ∷ t) h u v e =
    ap₂ ◌∷◌ (ground arith) (strncmp_eq-padded k s t (omega arith) u.1 v.1 (ground arith))

-- A string in an array determines the names that match it.
strncmp_eq_unique :
    (n : ℕ) (ds s t : List ℕ)
    → length ds ≤ n
    → IsTerminated ds
    → IsCString s
    → IsCString t
    → strncmp_eq n ds s ≡ true
    → strncmp_eq n ds t ≡ true
    → s ≡ t
unfolding strncmp_eq
strncmp_eq_unique n [] s t h w u v e f = elim w [ ]
strncmp_eq_unique zero (d ∷ ds) s t h w u v e f = absurd (omega arith)
strncmp_eq_unique (suc n) (d ∷ ds) [] [] h w u v e f = refl
strncmp_eq_unique (suc n) (d ∷ ds) [] (y ∷ t) h w u v e f = absurd (v.0 (ground arith))
strncmp_eq_unique (suc n) (d ∷ ds) (x ∷ s) [] h w u v e f = absurd (u.0 (ground arith))
strncmp_eq_unique (suc n) (d ∷ ds) (x ∷ s) (y ∷ t) h (inl z) u v e f = absurd (u.0 (ground arith))
strncmp_eq_unique (suc n) (d ∷ ds) (x ∷ s) (y ∷ t) h (inr w) u v e f =
    ap₂ ◌∷◌ (ground arith)
      (strncmp_eq_unique n ds s t (omega arith) w u.1 v.1 (ground arith) (ground arith))

matches-filled_self :
    (s : List ℕ) (z : ℤ) → IsFileName s → is_minus_one z ≡ false → matches (filled s z) s ≡ true
matches-filled_self s z f h = rw h (strncmp_eq-padded_self 39 s f.fits)

matches-filled_ne :
    (s t : List ℕ) (z : ℤ) → IsFileName s → IsCString t → s ≢ t → matches (filled s z) t ≡ false
matches-filled_ne s t z f v ne = elim (Bool-cases (matches (filled s z) t)) [
  | inl e ↦ absurd (ne (strncmp_eq-padded 39 s t f.fits f.bytes v (ground arith)))
  | inr e ↦ e
]

-- A name that was not there is found under its new inumber.
pub lookup-insert_self :
    (es : List DirEntry) (s : List ℕ) (z : ℤ)
    → IsFileName s
    → is_minus_one z ≡ false
    → has_room es ≡ true
    → lookup es s ≡ minus_one
    → lookup (insert es s z) s ≡ z
unfolding lookup insert has_room
lookup-insert_self [] s z f h room new = absurd (ground arith)
lookup-insert_self (e ∷ es) s z f h room new =
    ground (arith, matches-filled_self s z f h, lookup-insert_self es s z f h)

lookup-insert_miss :
    (es : List DirEntry) (s t : List ℕ) (z : ℤ)
    → matches (filled s z) t ≡ false
    → lookup (insert es s z) t ≡ lookup es t
unfolding lookup insert
lookup-insert_miss [] s t z m = refl
lookup-insert_miss (e ∷ es) s t z m = ground (arith, lookup-insert_miss es s t z m)

-- Every other name is found as before.
pub lookup-insert_ne :
    (es : List DirEntry) (s t : List ℕ) (z : ℤ)
    → IsFileName s
    → IsCString t
    → s ≢ t
    → lookup (insert es s z) t ≡ lookup es t
lookup-insert_ne es s t z f v ne = lookup-insert_miss es s t z (matches-filled_ne s t z f v ne)

-- No two live entries match one name.
abbrev pub IsDistinct : List DirEntry → Type 0
IsDistinct [] = Unit
IsDistinct (e ∷ es) =
    ((s : List ℕ) → IsCString s → matches e s ≡ true → lookup es s ≡ minus_one) × IsDistinct es

matches-erased : (s : List ℕ) → matches erased s ≡ false
matches-erased s = refl

-- A removed name is not found.
pub lookup-remove_self :
    (es : List DirEntry) (s : List ℕ)
    → IsDistinct es
    → IsCString s
    → lookup (remove es s) s ≡ minus_one
unfolding lookup remove
lookup-remove_self [] s d v = refl
lookup-remove_self (e ∷ es) s d v =
    ground (arith, d.0 s v, lookup-remove_self es s d.1 v, matches-erased s)

matches_unique :
    (e : DirEntry) (s t : List ℕ)
    → IsUsed e
    → IsCString s
    → IsCString t
    → matches e s ≡ true
    → matches e t ≡ true
    → s ≡ t
matches_unique e s t u v w p q =
    strncmp_eq_unique 40 e.d_name s t (omega (arith, u.sized)) u.terminated v w (ground arith)
      (ground arith)

-- Every other name is found as before.
pub lookup-remove_ne :
    (es : List DirEntry) (s t : List ℕ)
    → IsTidy es
    → IsCString s
    → IsCString t
    → s ≢ t
    → lookup (remove es s) t ≡ lookup es t
unfolding lookup remove
lookup-remove_ne [] s t d v w ne = refl
lookup-remove_ne (e ∷ es) s t (inl (u, d)) v w ne = elim (Bool-cases (matches e s)) [
  | inl p ↦ elim (Bool-cases (matches e t)) [
    | inl q ↦ absurd (ne (matches_unique e s t u v w p q))
    | inr q ↦ rw (p, q) refl
  ]
  | inr p ↦ ground (arith, lookup-remove_ne es s t d v w ne)
]
lookup-remove_ne (e ∷ es) s t (inr f) v w ne = ground (arith, remove-AllFree es s f.1)

lookup-live :
    (e : DirEntry) (es : List DirEntry) (s : List ℕ)
    → lookup (e ∷ es) s ≡ minus_one
    → (matches e s ≡ false) × (lookup es s ≡ minus_one)
unfolding lookup
lookup-live e es s h = ground arith

-- A new name keeps the names distinct.
pub insert-IsDistinct :
    (es : List DirEntry) (s : List ℕ) (z : ℤ)
    → IsFileName s
    → lookup es s ≡ minus_one
    → IsDistinct es
    → IsDistinct (insert es s z)
unfolding insert
insert-IsDistinct [] s z f new d = tt
insert-IsDistinct (e ∷ es) s z f new d = elim (Bool-cases (is_live e)) [
  | inr e0 ↦ rw e0 (λ t v m. ap (lookup es) (sym (name_of t v m)) ∙ rest.1, d.1)
  | inl e1 ↦ rw e1 (λ t v m. once t v m, insert-IsDistinct es s z f rest.1 d.1)
]
  where
    rest : (matches e s ≡ false) × (lookup es s ≡ minus_one)
    rest = lookup-live e es s new

    name_of : (t : List ℕ) → IsCString t → matches (filled s z) t ≡ true → s ≡ t
    name_of t v m = strncmp_eq-padded 39 s t f.fits f.bytes v (ground arith)

    once : (t : List ℕ) → IsCString t → matches e t ≡ true → lookup (insert es s z) t ≡ minus_one
    once t v m = elim (Bool-cases (matches (filled s z) t)) [
      | inl p ↦ absurd (false≢true (sym rest.0 ∙ ap (matches e) (name_of t v p) ∙ m))
      | inr q ↦ lookup-insert_miss es s t z q ∙ d.0 t v m
    ]

lookup-remove_none :
    (es : List DirEntry) (s t : List ℕ)
    → lookup es t ≡ minus_one
    → lookup (remove es s) t ≡ minus_one
unfolding lookup remove
lookup-remove_none [] s t h = refl
lookup-remove_none (e ∷ es) s t h = ground (arith, lookup-live e es t h, lookup-remove_none es s t)

-- Removal keeps the names distinct.
pub remove-IsDistinct : (es : List DirEntry) (s : List ℕ) → IsDistinct es → IsDistinct (remove es s)
unfolding remove
remove-IsDistinct [] s d = tt
remove-IsDistinct (e ∷ es) s d = elim (Bool-cases (matches e s)) [
  | inl p ↦ rw p (λ t v m. cc, d.1)
  | inr q ↦ rw q (λ t v m. lookup-remove_none es s t (d.0 t v m), remove-IsDistinct es s d.1)
]
