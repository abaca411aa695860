-- ===== src/Tests/Boxes.antt =====
-- The theorems on the list of boxes of utils/logging.c, at a heap with the list of `a` and `b` and
-- one more box.
use t_cnico_file_system_pt.Prelude.{
  ℕ, ◌≡◌, refl, arith, pos, [], ◌∷◌, ◌++◌, Option, none, some, ◌==◌, if◌then◌else◌,
}
use t_cnico_file_system_pt.Boxes.{
  Box, Heap, returned, find_from, insert_box, delete_box, free_boxes,
}
use t_cnico_file_system_pt.Boxes.Chain.{
  IsChain, IsOutside, IsSimple, IsFreed, first_named, find_from-first_named, free_boxes-IsFreed,
}
use t_cnico_file_system_pt.Boxes.Insert.{SameBoxes, insert_box-appends}
use t_cnico_file_system_pt.Boxes.Delete.{Deleted, delete_box-Deleted}

abbrev box_a : Box
box_a = record { box_name = 97 ∷ []; has_writer = pos 0; n_readers = pos 0; next = some 5 }

abbrev box_b : Box
box_b = record { box_name = 98 ∷ []; has_writer = pos 1; n_readers = pos 2; next = none }

abbrev two_boxes : Heap
two_boxes x =
    if x == 3
    then some box_a
    else if x == 5
    then some box_b
    else if x == 7
    then some box_a
    else none

chain : IsChain two_boxes (some 3) (3 ∷ 5 ∷ [])
chain = (refl, box_a, refl, (refl, box_b, refl, refl))

simple : IsSimple (3 ∷ 5 ∷ [])
simple = (((λ e. omega arith), tt), (tt, tt))

find_from-first_named_example :
    find_from 2 two_boxes (some 3) (98 ∷ [])
    ≡ returned (first_named two_boxes (3 ∷ 5 ∷ []) (98 ∷ []))
find_from-first_named_example =
    find_from-first_named 2 two_boxes (some 3) (3 ∷ 5 ∷ []) (98 ∷ []) chain (omega arith)

free_boxes-IsFreed_example :
    (h' : Heap) × (free_boxes 2 two_boxes (some 3) ≡ returned h')
    × IsFreed h' (3 ∷ 5 ∷ [])
    × ((x : ℕ) → IsOutside x (3 ∷ 5 ∷ []) → h' x ≡ two_boxes x)
free_boxes-IsFreed_example =
    free_boxes-IsFreed 2 two_boxes (some 3) (3 ∷ 5 ∷ []) chain simple (omega arith)

insert_box-appends_example :
    (head' : Option ℕ) × (h' : Heap) × (insert_box 2 two_boxes 7 (some 3) ≡ returned (head', h'))
    × IsChain h' head' ((3 ∷ 5 ∷ []) ++ (7 ∷ []))
    × SameBoxes two_boxes h'
    × ((x : ℕ) → IsOutside x (7 ∷ 3 ∷ 5 ∷ []) → h' x ≡ two_boxes x)
insert_box-appends_example =
    insert_box-appends 2 two_boxes 7 (some 3) (3 ∷ 5 ∷ []) box_a chain simple
      ((λ e. omega arith), ((λ e. omega arith), tt)) refl (omega arith)

delete_box-Deleted_example :
    (head' : Option ℕ) × (h' : Heap) × (delete_box 2 two_boxes (98 ∷ []) (some 3)
      ≡ returned (head', h'))
    × Deleted two_boxes (3 ∷ 5 ∷ []) (98 ∷ []) head' h'
delete_box-Deleted_example =
    delete_box-Deleted 2 two_boxes (98 ∷ []) (some 3) (3 ∷ 5 ∷ []) chain simple (omega arith)
