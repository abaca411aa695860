-- ===== src/Broker/Manage/Removal/Rest.antt =====
-- Walks along the list of boxes, and what is left of it without a box.
use t_cnico_file_system_pt.Prelude.{
  ℕ, zero, suc, ◌≤◌, ◌≡◌, refl, sym, arith, List, [], ◌∷◌, Bool-cases, inl, inr, Option, none, some,
  length,
}
use t_cnico_file_system_pt.Boxes.{Box, Heap, put, returned, iterate_box}
use t_cnico_file_system_pt.Boxes.Chain.{IsChain, IsOutside, IsSimple, has_name, put_other}
use t_cnico_file_system_pt.Boxes.Delete.{without_first}
use t_cnico_file_system_pt.Broker.{Broker, World, finished, iterate}
use t_cnico_file_system_pt.Broker.Post.{walks-eq}
use t_cnico_file_system_pt.Broker.Find.{with_box, IsOutside-none}

iterate_box-returned :
    (rounds : ℕ) (h : Heap) (p : Option ℕ) (xs : List ℕ)
    → IsChain h p xs
    → length xs ≤ rounds
    → iterate_box rounds h p ≡ returned tt
unfolding iterate_box
iterate_box-returned zero h p [] c l = rw (c, iterate_box) refl
iterate_box-returned (suc rounds) h p [] c l = rw (c, iterate_box) refl
iterate_box-returned zero h p (a ∷ xs) c l = absurd (omega arith)
iterate_box-returned (suc rounds) h p (a ∷ xs) (e, b, at, c) l =
    rw (e, at, iterate_box) (iterate_box-returned rounds h b.next xs c (omega (arith, l)))

pub iterate-eq :
    (world : World) (s : Broker) (xs : List ℕ)
    → IsChain s.heap s.head xs
    → length xs ≤ world.rounds
    → iterate world s ≡ finished (tt, s)
unfolding iterate
iterate-eq world s xs c l =
    walks-eq (λ s. iterate_box world.rounds s.heap s.head) (λ s r. (tt, s)) s tt
      (iterate_box-returned world.rounds s.heap s.head xs c l)

-- The rest of a list keeps what holds of the list.
without_first-IsOutside :
    (h : Heap) (x : ℕ) (xs name : List ℕ) → IsOutside x xs → IsOutside x (without_first h xs name)
unfolding without_first
without_first-IsOutside h x [] name o = tt
without_first-IsOutside h x (a ∷ xs) name o = elim (Bool-cases (has_name h a name)) [
  | inl y ↦ rw (y, without_first) o.1
  | inr n ↦ rw (n, without_first) (o.0, without_first-IsOutside h x xs name o.1)
]

pub without_first-IsSimple :
    (h : Heap) (xs name : List ℕ) → IsSimple xs → IsSimple (without_first h xs name)
unfolding without_first
without_first-IsSimple h [] name d = tt
without_first-IsSimple h (a ∷ xs) name d = elim (Bool-cases (has_name h a name)) [
  | inl y ↦ rw (y, without_first) d.1
  | inr n ↦
      rw (n, without_first)
        (without_first-IsOutside h a xs name d.0, without_first-IsSimple h xs name d.1)
]

pub length-without_first :
    (h : Heap) (xs name : List ℕ) → length (without_first h xs name) ≤ length xs
unfolding without_first
length-without_first h [] name = omega arith
length-without_first h (a ∷ xs) name = elim (Bool-cases (has_name h a name)) [
  | inl y ↦ rw (y, without_first) (omega arith)
  | inr n ↦ rw (n, without_first) (omega (arith, length-without_first h xs name))
]

without_first-put :
    (h : Heap) (u : ℕ) (v : Option Box) (xs name : List ℕ)
    → IsOutside u xs
    → without_first (put h u v) xs name ≡ without_first h xs name
unfolding without_first
without_first-put h u v [] name o = refl
without_first-put h u v (a ∷ xs) name o =
    ground (arith, put_other h u a v (λ z. o.0 (sym z)), without_first-put h u v xs name o.1)

pub without_first-with_box :
    (world : World) (h : Heap) (q o : Option ℕ) (xs name : List ℕ)
    → IsChain h q xs
    → ((u : ℕ) → o ≡ some u → h u ≡ none)
    → without_first (with_box world h o) xs name ≡ without_first h xs name
without_first-with_box world h q none xs name c fresh = refl
without_first-with_box world h q (some u) xs name c fresh =
    without_first-put h u (some world.garbage) xs name (IsOutside-none h q xs u c (fresh u refl))
