-- ===== src/Boxes/Delete.antt =====
-- `delete_box` of utils/logging.c.
use t_cnico_file_system_pt.Prelude.{
  ℕ, zero, suc, ◌≤◌, ◌≡◌, ◌≢◌, refl, sym, ap, ◌∙◌, arith, List, [], ◌∷◌, false, Bool-cases, inl,
  inr, Option, none, some, length, if◌then◌else◌,
}
use mathlib.Core.Path.{subst}
use t_cnico_file_system_pt.Boxes.{
  Box, Heap, put, Walk, returned, name_eq, search_from, unlink_box, set_next, delete_behind,
  delete_box,
}
use t_cnico_file_system_pt.Boxes.Insert.{contents, linked-SameBoxes}
use t_cnico_file_system_pt.Boxes.Chain.{
  IsChain, IsOutside, IsSimple, IsChain-put, put_same, put_other, has_name, first_named,
}

-- The list without its first box of that name.
unfoldable pub without_first : Heap → List ℕ → List ℕ → List ℕ
without_first h [] name = []
without_first h (a ∷ xs) name =
    let rest = without_first h xs name in if has_name h a name then xs else a ∷ rest

-- What the search behind the box `p` finds, and what unlinking it makes of the heap.
data Searched (h : Heap) (p : ℕ) (xs name : List ℕ) (o : Walk (ℕ × Option ℕ)) : Type 0 where
  missing :
      (q : ℕ)
      → o ≡ returned (q, none)
      → first_named h xs name ≡ none
      → without_first h xs name ≡ xs
      → Searched h p xs name o
  found :
      (q t : ℕ) (h' : Heap)
      → o ≡ returned (q, some t)
      → unlink_box h q t ≡ returned h'
      → first_named h xs name ≡ some t
      → IsChain h' (some p) (p ∷ without_first h xs name)
      → h' t ≡ none
      → ((x : ℕ) → IsOutside x (p ∷ xs) → h' x ≡ h x)
      → ((x : ℕ) → x ≢ t → contents (h' x) ≡ contents (h x))
      → Searched h p xs name o

without_first_ne :
    (h : Heap) (a : ℕ) (b : Box) (xs name : List ℕ)
    → h a ≡ some b
    → name_eq b.box_name name ≡ false
    → without_first h (a ∷ xs) name ≡ a ∷ without_first h xs name
unfolding without_first
without_first_ne h a b xs name at n = ground (arith, at, n)

unlink_box-eq :
    (h : Heap) (p t : ℕ) (pb b : Box)
    → h p ≡ some pb
    → h t ≡ some b
    → unlink_box h p t ≡ returned (put (put h p (some (record pb { next = b.next }))) t none)
unfolding unlink_box set_next
unlink_box-eq h p t pb b hp ht = ground (arith, hp, ht)

search_from-Searched :
    (rounds : ℕ) (h : Heap) (p : ℕ) (pb : Box) (xs name : List ℕ)
    → h p ≡ some pb
    → IsChain h pb.next xs
    → IsOutside p xs
    → IsSimple xs
    → length xs ≤ rounds
    → Searched h p xs name (search_from rounds h p pb.next name)
unfolding search_from first_named without_first
search_from-Searched zero h p pb [] name hp c o d l = missing p (rw c refl) refl refl
search_from-Searched (suc r) h p pb [] name hp c o d l = missing p (rw c refl) refl refl
search_from-Searched zero h p pb (a ∷ xs) name hp c o d l = absurd (omega arith)
search_from-Searched (suc r) h p pb (a ∷ xs) name hp (e, b, at, c) o d l =
    elim (Bool-cases (name_eq b.box_name name)) [
      | inl y ↦
          let linked = put h p (some (record pb { next = b.next })) in
          found p a (put linked a none) (rw e (ground (arith, at, y)))
            (unlink_box-eq h p a pb b hp at) (ground (arith, at, y))
            (subst (λ zs. IsChain (put linked a none) (some p) (p ∷ zs))
              (sym (ground (arith, at, y)))
              (
                refl,
                record pb { next = b.next },
                put_other linked a p none o.0 ∙ put_same h p _,
                IsChain-put linked a none b.next xs d.0 (IsChain-put h p _ b.next xs o.1 c),
              ))
            (put_same linked a none)
            (λ x out. put_other linked a x none out.1.0 ∙ put_other h p x _ out.0)
            (λ x ne.
              ap contents (put_other linked a x none ne) ∙ linked-SameBoxes h p pb b.next hp x)
      | inr n ↦ elim (search_from-Searched r h a b xs name at c d.0 d.1 (omega arith)) [
        | missing q eq none_named same ↦
            missing q (rw e (ground (arith, at, n, eq))) (ground (arith, at, n, none_named))
              (ground (arith, at, n, same))
        | found q t h' eq un first chain freed outside others ↦
            found q t h' (rw e (ground (arith, at, n, eq))) un (ground (arith, at, n, first))
              (subst (λ zs. IsChain h' (some p) (p ∷ zs))
                (sym (without_first_ne h a b xs name at n))
                (
                  refl,
                  pb,
                  outside p o ∙ hp,
                  subst (λ z. IsChain h' z (a ∷ without_first h xs name)) (sym e) chain,
                ))
              freed (λ x out. outside x out.1) others
      ]
    ]

-- What `delete_box` leaves of the heap: the list without its first box of the name, which is freed.
pub record Deleted (h : Heap) (xs name : List ℕ) (head : Option ℕ) (h' : Heap) : Type 0 where
  pub chain : IsChain h' head (without_first h xs name)
  pub freed : (x : ℕ) → first_named h xs name ≡ some x → h' x ≡ none
  pub outside : (x : ℕ) → IsOutside x xs → h' x ≡ h x
  pub others : (x : ℕ) → first_named h xs name ≢ some x → contents (h' x) ≡ contents (h x)

delete_behind-Deleted :
    (rounds : ℕ) (h : Heap) (a : ℕ) (b : Box) (xs name : List ℕ)
    → h a ≡ some b
    → IsChain h b.next xs
    → IsSimple (a ∷ xs)
    → length xs ≤ rounds
    → name_eq b.box_name name ≡ false
    → (h' : Heap) × (delete_behind (suc rounds) h a name ≡ returned (some a, h'))
      × Deleted h (a ∷ xs) name (some a) h'
unfolding delete_behind search_from first_named without_first
delete_behind-Deleted rounds h a b xs name at c d l n =
    elim (search_from-Searched rounds h a b xs name at c d.0 d.1 l) [
      | missing q eq none_named same ↦ (
        h,
        ground (arith, at, n, eq),
        record {
          chain =
              subst (IsChain h (some a))
                (sym (without_first_ne h a b xs name at n ∙ ap (◌∷◌ a) same)) (refl, b, at, c);
          freed = λ x e. absurd (ground (arith, at, n, none_named, e));
          outside = λ x out. refl;
          others = λ x ne. refl;
        },
      )
      | found q t h' eq un first chain freed outside others ↦ (
        h',
        ground (arith, at, n, eq, un),
        record {
          chain = subst (IsChain h' (some a)) (sym (without_first_ne h a b xs name at n)) chain;
          freed = λ x e. ap h' (ground (arith, at, n, first, e)) ∙ freed;
          outside = outside;
          others = λ x ne. others x (λ z. ne (ground (arith, at, n, first, ap some z)));
        },
      )
    ]

-- With a round for each box of a list without repeats, `delete_box` returns a pointer to the list
-- without its first box of that name, and frees that box; without such a box the list stays as it
-- was. The other boxes keep their names and counts, and nothing changes outside the list.
pub delete_box-Deleted :
    (rounds : ℕ) (h : Heap) (name : List ℕ) (head : Option ℕ) (xs : List ℕ)
    → IsChain h head xs
    → IsSimple xs
    → length xs ≤ rounds
    → (head' : Option ℕ) × (h' : Heap) × (delete_box rounds h name head ≡ returned (head', h'))
      × Deleted h xs name head' h'
unfolding delete_box first_named without_first
delete_box-Deleted rounds h name head [] c d l = (
  none,
  h,
  rw c refl,
  record {
    chain = refl;
    freed = λ x e. absurd (ground (arith, e));
    outside = λ x out. refl;
    others = λ x ne. refl;
  },
)
delete_box-Deleted zero h name head (a ∷ xs) c d l = absurd (omega arith)
delete_box-Deleted (suc r) h name head (a ∷ xs) (e, b, at, c) d l =
    elim (Bool-cases (name_eq b.box_name name)) [
      | inl y ↦ (
        b.next,
        put h a none,
        rw e (ground (arith, at, y)),
        record {
          chain =
              subst (IsChain (put h a none) b.next) (sym (ground (arith, at, y)))
                (IsChain-put h a none b.next xs d.0 c);
          freed = λ x f. ap (put h a none) (ground (arith, at, y, f)) ∙ put_same h a none;
          outside = λ x out. put_other h a x none out.0;
          others = λ x ne.
              ap contents (put_other h a x none (λ z. ne (ground (arith, at, y, ap some z))));
        },
      )
      | inr n ↦
          let (h', eq, deleted) = delete_behind-Deleted r h a b xs name at c d (omega arith) n in
          (some a, h', rw e (ground (arith, at, n, eq)), deleted)
    ]
