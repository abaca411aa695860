-- ===== src/Broker/Service/Lists.antt =====
-- Lists of names, as the names of the boxes of mbroker/mbroker.c in their order.
use t_cnico_file_system_pt.Prelude.{
  ℕ, ◌≤◌, ◌≡◌, ◌≢◌, refl, sym, ap, ◌∙◌, arith, List, [], ◌∷◌, ◌++◌, Bool, true, false, Bool-cases,
  inl, inr, if◌then◌else◌, length,
}
use t_cnico_file_system_pt.Boxes.{name_eq}

pub name_eq_refl : (n : List ℕ) → name_eq n n ≡ true
unfolding name_eq
name_eq_refl [] = refl
name_eq_refl (c ∷ n) = ground (arith, name_eq_refl n)

pub name_eq_sound : (m n : List ℕ) → name_eq m n ≡ true → m ≡ n
unfolding name_eq
name_eq_sound [] [] e = refl
name_eq_sound [] (d ∷ n) e = absurd (ground (arith, e))
name_eq_sound (c ∷ m) [] e = absurd (ground (arith, e))
name_eq_sound (c ∷ m) (d ∷ n) e = ground (arith, name_eq_sound m n)

pub name_eq-ne : (m n : List ℕ) → name_eq m n ≡ false → m ≢ n
name_eq-ne m n e z = ground (arith, e, ap (name_eq m) (sym z) ∙ name_eq_refl m)

pub ne-name_eq : (m n : List ℕ) → m ≢ n → name_eq m n ≡ false
ne-name_eq m n ne = elim (Bool-cases (name_eq m n)) [
  | inl y ↦ absurd (ne (name_eq_sound m n y))
  | inr z ↦ z
]

unfoldable pub has : List (List ℕ) → List ℕ → Bool
has [] n = false
has (m ∷ names) n = let rest = has names n in if name_eq m n then true else rest

-- Without the first box of that name.
unfoldable pub without : List (List ℕ) → List ℕ → List (List ℕ)
without [] n = []
without (m ∷ names) n = let rest = without names n in if name_eq m n then names else m ∷ rest

-- Without all of them.
unfoldable pub forget : List (List ℕ) → List ℕ → List (List ℕ)
forget [] n = []
forget (m ∷ names) n = let rest = forget names n in if name_eq m n then rest else m ∷ rest

abbrev pub IsDistinct : List (List ℕ) → Type 0
IsDistinct [] = Unit
IsDistinct (m ∷ names) = (has names m ≡ false) × IsDistinct names

pub has-snoc :
    (names : List (List ℕ)) (m n : List ℕ)
    → has (names ++ (m ∷ [])) n ≡ (if name_eq m n then true else has names n)
unfolding has
has-snoc [] m n = refl
has-snoc (k ∷ names) m n = ground (arith, has-snoc names m n)

pub has-cons :
    (names : List (List ℕ)) (m n : List ℕ)
    → has (m ∷ names) n ≡ (if name_eq m n then true else has names n)
unfolding has
has-cons names m n = refl

pub has-without_ne :
    (names : List (List ℕ)) (m n : List ℕ) → m ≢ n → has (without names m) n ≡ has names n
unfolding has without
has-without_ne [] m n ne = refl
has-without_ne (k ∷ names) m n ne = elim (Bool-cases (name_eq k m)) [
  | inl y ↦
      let z : name_eq k n ≡ false = ne-name_eq k n (λ e. ne (sym (name_eq_sound k m y) ∙ e)) in
      rw (y, z, has) refl
  | inr z ↦ ground (arith, z, has-without_ne names m n ne)
]

pub has-without_self :
    (names : List (List ℕ)) (n : List ℕ) → IsDistinct names → has (without names n) n ≡ false
unfolding has without
has-without_self [] n d = refl
has-without_self (k ∷ names) n d = elim (Bool-cases (name_eq k n)) [
  | inl y ↦ rw (y, without) (ap (has names) (sym (name_eq_sound k n y)) ∙ d.0)
  | inr z ↦ ground (arith, z, has-without_self names n d.1)
]

pub IsDistinct-snoc :
    (names : List (List ℕ)) (n : List ℕ)
    → IsDistinct names
    → has names n ≡ false
    → IsDistinct (names ++ (n ∷ []))
unfolding has
IsDistinct-snoc [] n d e = (refl, tt)
IsDistinct-snoc (k ∷ names) n d e = (
  has-snoc names n k
      ∙ ground (arith, d.0, e, ne-name_eq n k, λ (z : n ≡ k). ap (name_eq k) z ∙ name_eq_refl k),
  IsDistinct-snoc names n d.1 (ground (arith, e)),
)

has-without-false :
    (names : List (List ℕ)) (m n : List ℕ) → has names n ≡ false → has (without names m) n ≡ false
unfolding has without
has-without-false [] m n e = refl
has-without-false (k ∷ names) m n e = ground (arith, e, has-without-false names m n)

pub IsDistinct-without :
    (names : List (List ℕ)) (n : List ℕ) → IsDistinct names → IsDistinct (without names n)
unfolding without
IsDistinct-without [] n d = tt
IsDistinct-without (k ∷ names) n d = elim (Bool-cases (name_eq k n)) [
  | inl y ↦ rw (y, without) d.1
  | inr z ↦ rw (z, without) (has-without-false names n k d.0, IsDistinct-without names n d.1)
]

pub length-without : (names : List (List ℕ)) (n : List ℕ) → length (without names n) ≤ length names
unfolding without
length-without [] n = omega arith
length-without (k ∷ names) n = elim (Bool-cases (name_eq k n)) [
  | inl y ↦ rw (y, without) (omega arith)
  | inr z ↦ rw (z, without) (omega (arith, length-without names n))
]

pub has-forget_ne :
    (names : List (List ℕ)) (m n : List ℕ) → m ≢ n → has (forget names m) n ≡ has names n
unfolding has forget
has-forget_ne [] m n ne = refl
has-forget_ne (k ∷ names) m n ne = elim (Bool-cases (name_eq k m)) [
  | inl y ↦
      let z : name_eq k n ≡ false = ne-name_eq k n (λ e. ne (sym (name_eq_sound k m y) ∙ e)) in
      rw (y, z, has) (has-forget_ne names m n ne)
  | inr z ↦ ground (arith, z, has-forget_ne names m n ne)
]
