-- ===== src/Boxes/Chain.antt =====
-- The list of boxes of utils/logging.c as the list of its addresses.
use t_cnico_file_system_pt.Prelude.{
  ℕ, zero, suc, ◌≤◌, ◌≡◌, ◌≢◌, refl, sym, ◌∙◌, arith, List, [], ◌∷◌, Bool, false, if◌then◌else◌,
  Option, none, some, length,
}
use t_cnico_file_system_pt.Boxes.{Box, Heap, put, returned, name_eq, find_from, free_boxes}

-- From `p` on, the heap holds a list of boxes at the addresses `xs`.
abbrev pub IsChain : Heap → Option ℕ → List ℕ → Type 0
IsChain h p [] = p ≡ none
IsChain h p (a ∷ xs) = (p ≡ some a) × (b : Box) × (h a ≡ some b) × IsChain h b.next xs

abbrev pub IsOutside : ℕ → List ℕ → Type 0
IsOutside x [] = Unit
IsOutside x (a ∷ xs) = (x ≢ a) × IsOutside x xs

-- No address occurs twice.
abbrev pub IsSimple : List ℕ → Type 0
IsSimple [] = Unit
IsSimple (a ∷ xs) = IsOutside a xs × IsSimple xs

-- The box at an address has the name.
abbrev pub has_name : Heap → ℕ → List ℕ → Bool
has_name h a name = elim (h a) [ none ↦ false | some b ↦ name_eq b.box_name name ]

unfoldable pub first_named : Heap → List ℕ → List ℕ → Option ℕ
first_named h [] name = none
first_named h (a ∷ xs) name =
    let rest = first_named h xs name in if has_name h a name then some a else rest

abbrev pub IsFreed : Heap → List ℕ → Type 0
IsFreed h [] = Unit
IsFreed h (a ∷ xs) = (h a ≡ none) × IsFreed h xs

pub put_same : (h : Heap) (a : ℕ) (v : Option Box) → put h a v a ≡ v
unfolding put
put_same h a v = ground arith

pub put_other : (h : Heap) (a x : ℕ) (v : Option Box) → x ≢ a → put h a v x ≡ h x
unfolding put
put_other h a x v n = ground arith

pub IsChain-put :
    (h : Heap) (x : ℕ) (v : Option Box) (p : Option ℕ) (xs : List ℕ)
    → IsOutside x xs
    → IsChain h p xs
    → IsChain (put h x v) p xs
IsChain-put h x v p [] o c = c
IsChain-put h x v p (a ∷ xs) o (e, b, at, c) =
    (e, b, put_other h x a v (λ z. o.0 (sym z)) ∙ at, IsChain-put h x v b.next xs o.1 c)

-- With a round for each box of a list, the loop of `find_box` returns the first box of the list
-- with that name, or NULL if there is none.
pub find_from-first_named :
    (rounds : ℕ) (h : Heap) (p : Option ℕ) (xs name : List ℕ)
    → IsChain h p xs
    → length xs ≤ rounds
    → find_from rounds h p name ≡ returned (first_named h xs name)
unfolding find_from first_named
find_from-first_named zero h p [] name c l = rw c refl
find_from-first_named (suc rounds) h p [] name c l = rw c refl
find_from-first_named zero h p (a ∷ xs) name c l = absurd (omega arith)
find_from-first_named (suc rounds) h p (a ∷ xs) name (e, b, at, c) l =
    rw e (ground (arith, at, find_from-first_named rounds h b.next xs name c (omega arith)))

-- With a round for each box of a list without repeats, `free_boxes` returns; it frees each box of
-- the list and changes nothing else.
pub free_boxes-IsFreed :
    (rounds : ℕ) (h : Heap) (p : Option ℕ) (xs : List ℕ)
    → IsChain h p xs
    → IsSimple xs
    → length xs ≤ rounds
    → (h' : Heap) × (free_boxes rounds h p ≡ returned h')
      × IsFreed h' xs
      × ((x : ℕ) → IsOutside x xs → h' x ≡ h x)
unfolding free_boxes
free_boxes-IsFreed zero h p [] c d l = (h, rw c refl, tt, λ x o. refl)
free_boxes-IsFreed (suc rounds) h p [] c d l = (h, rw c refl, tt, λ x o. refl)
free_boxes-IsFreed zero h p (a ∷ xs) c d l = absurd (omega arith)
free_boxes-IsFreed (suc rounds) h p (a ∷ xs) (e, b, at, c) d l =
    let (h', eq, freed, same) =
      free_boxes-IsFreed rounds (put h a none) b.next xs (IsChain-put h a none b.next xs d.0 c) d.1
        (omega arith) in
    (
      h',
      rw e (ground (arith, at, eq)),
      (same a d.0 ∙ put_same h a none, freed),
      λ x o. same x o.1 ∙ put_other h a x none o.0,
    )
