-- ===== src/Boxes/Insert.antt =====
-- `insert_box` of utils/logging.c.
use t_cnico_file_system_pt.Prelude.{
  ℕ, ℤ, zero, suc, ◌≤◌, ◌<◌, ◌≡◌, refl, sym, ap, ◌∙◌, arith, List, [], ◌∷◌, ◌++◌, ◌==◌, ==_iff,
  Bool-cases, inl, inr, Option, none, some, length,
}
use mathlib.Core.Path.{subst}
use t_cnico_file_system_pt.Boxes.{
  Box, Heap, put, Walk, returned, last_from, set_next, link_last, insert_box,
}
use t_cnico_file_system_pt.Boxes.Chain.{
  IsChain, IsOutside, IsSimple, IsChain-put, put_same, put_other,
}

-- The box but for its pointer.
abbrev pub contents : Option Box → Option (List ℕ × ℤ × ℤ)
contents none = none
contents (some b) = some (b.box_name, b.has_writer, b.n_readers)

-- The two heaps hold the same boxes, but for their pointers.
abbrev pub SameBoxes : Heap → Heap → Type 0
SameBoxes h h' = (x : ℕ) → contents (h' x) ≡ contents (h x)

pub linked-SameBoxes :
    (h : Heap) (p : ℕ) (b : Box) (v : Option ℕ)
    → h p ≡ some b
    → SameBoxes h (put h p (some (record b { next = v })))
linked-SameBoxes h p b v at x = elim (Bool-cases (x == p)) [
  | inl e ↦
      let q : x ≡ p = (==_iff x p).0 e in
      ap contents (ap (put h p (some (record b { next = v }))) q ∙ put_same h p _)
      ∙ sym (ap contents (ap h q ∙ at))
  | inr e ↦ ap contents (put_other h p x _ (λ q. ground (arith, e, q)))
]

-- The heap after the last box of the list from `p` on got `new` behind it.
record Links (h : Heap) (p new : ℕ) (xs : List ℕ) (o : Walk Heap) : Type 0 where
  heap : Heap
  returns : o ≡ returned heap
  chain : IsChain heap (some p) ((p ∷ xs) ++ (new ∷ []))
  same_boxes : SameBoxes h heap
  outside : (x : ℕ) → IsOutside x (p ∷ xs) → heap x ≡ h x

link_last_step :
    (r : ℕ) (h h' : Heap) (p q new : ℕ) (b : Box)
    → h p ≡ some b
    → b.next ≡ some q
    → link_last r h new q ≡ returned h'
    → link_last (suc r) h new p ≡ returned h'
unfolding link_last last_from
link_last_step r h h' p q new b here f e = ground (arith, here, f, e)

link_last-Links :
    (rounds : ℕ) (h : Heap) (p new : ℕ) (xs : List ℕ) (nb : Box)
    → IsChain h (some p) (p ∷ xs)
    → IsSimple (p ∷ xs)
    → IsOutside new (p ∷ xs)
    → h new ≡ some nb
    → nb.next ≡ none
    → length xs < rounds
    → Links h p new xs (link_last rounds h new p)
unfolding link_last last_from set_next
link_last-Links zero h p new xs nb c d o at n l = absurd (omega arith)
link_last-Links (suc r) h p new [] nb (e, b, here, c) d o at n l = record {
  heap = put h p (some (record b { next = some new }));
  returns = ground (arith, here, c);
  chain = (
    refl,
    record b { next = some new },
    put_same h p _,
    (refl, nb, put_other h p new _ o.0 ∙ at, n),
  );
  same_boxes = linked-SameBoxes h p b (some new) here;
  outside = λ x out. put_other h p x _ out.0;
}
link_last-Links (suc r) h p new (q ∷ xs) nb (e, b, here, (f, b', there, c)) d o at n l =
    let rest = link_last-Links r h q new xs nb (refl, b', there, c) d.1 o.1 at n (omega arith) in
    record {
      heap = rest.heap;
      returns = link_last_step r h rest.heap p q new b here f rest.returns;
      chain = (
        refl,
        b,
        rest.outside p d.0 ∙ here,
        subst (λ z. IsChain rest.heap z ((q ∷ xs) ++ (new ∷ []))) (sym f) rest.chain,
      );
      same_boxes = rest.same_boxes;
      outside = λ x out. rest.outside x out.1;
    }

-- Let `head` lead to a list of boxes without repeats, let a box stand at an address outside it,
-- and let there be a round for each box of the list. `insert_box` then returns a pointer to the
-- list with the new box at its end. It changes pointers only, and no box outside the list but the
-- new one.
pub insert_box-appends :
    (rounds : ℕ) (h : Heap) (new_box : ℕ) (head : Option ℕ) (xs : List ℕ) (nb : Box)
    → IsChain h head xs
    → IsSimple xs
    → IsOutside new_box xs
    → h new_box ≡ some nb
    → length xs ≤ rounds
    → (head' : Option ℕ) × (h' : Heap) × (insert_box rounds h new_box head ≡ returned (head', h'))
      × IsChain h' head' (xs ++ (new_box ∷ []))
      × SameBoxes h h'
      × ((x : ℕ) → IsOutside x (new_box ∷ xs) → h' x ≡ h x)
unfolding insert_box set_next
insert_box-appends rounds h new head [] nb c d o at l = (
  some new,
  put h new (some (record nb { next = none })),
  rw c (ground (arith, at)),
  (refl, record nb { next = none }, put_same h new _, refl),
  linked-SameBoxes h new nb none at,
  λ x out. put_other h new x _ out.0,
)
insert_box-appends rounds h new head (p ∷ xs) nb (e, b, here, c) d o at l =
    let fresh = record nb { next = none } in
    let h1 = put h new (some fresh) in
    let links =
      link_last-Links rounds h1 p new xs fresh
        (IsChain-put h new _ (some p) (p ∷ xs) o (refl, b, here, c)) d o (put_same h new _) refl
        (omega arith) in
    (
      some p,
      links.heap,
      rw e (ground (arith, at, links.returns)),
      links.chain,
      λ x. links.same_boxes x ∙ linked-SameBoxes h new nb none at x,
      λ x out. links.outside x out.1 ∙ put_other h new x _ out.0,
    )
