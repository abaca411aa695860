-- ===== src/Boxes.antt =====
-- The list of message boxes of utils/logging.c: `find_box`, `insert_box`, `delete_box` and
-- `free_boxes` on a heap of boxes. A pointer is an address, or `none` for NULL; a loop takes the
-- rounds it may make, since a list that runs in a circle is walked for ever.
use t_cnico_file_system_pt.Prelude.{
  ℕ, zero, suc, ◌-◌, ℤ, minus_one, List, [], ◌∷◌, Bool, true, false, ◌==◌, ◌&&◌, if◌then◌else◌,
  Option, none, some,
}
pub mod Chain
pub mod Insert
pub mod Delete

-- `box`, its name as the string in its array.
pub record Box : Type 0 where
  pub box_name : List ℕ
  pub has_writer : ℤ
  pub n_readers : ℤ
  pub next : Option ℕ

-- What stands at an address: a box, or nothing where no box is allocated.
abbrev pub Heap : Type 0
Heap = ℕ → Option Box

unfoldable pub put : Heap → ℕ → Option Box → Heap
put h a v x = if x == a then v else h x

-- How a walk ends: it returns, it reads or writes where no box is, or it needs more rounds.
pub data Walk {ℓ} (A : Type ℓ) : Type ℓ where
  returned : A → Walk A
  invalid unfinished : Walk A

-- `!strcmp`, on strings.
unfoldable pub name_eq : List ℕ → List ℕ → Bool
name_eq [] [] = true
name_eq [] (d ∷ t) = false
name_eq (c ∷ s) [] = false
name_eq (c ∷ s) (d ∷ t) = (c == d) && name_eq s t

-- The loop of `find_box`.
unfoldable pub find_from : ℕ → Heap → Option ℕ → List ℕ → Walk (Option ℕ)
find_from zero h none box_name = returned none
find_from zero h (some current) box_name = unfinished
find_from (suc rounds) h none box_name = returned none
find_from (suc rounds) h (some current) box_name = elim (h current) [
  | none ↦ invalid
  | some b ↦
      let rest = find_from rounds h b.next box_name in
      if name_eq b.box_name box_name then returned (some current) else rest
]

-- "unexistent"
abbrev pub unexistent : List ℕ
unexistent = 117 ∷ 110 ∷ 101 ∷ 120 ∷ 105 ∷ 115 ∷ 116 ∷ 101 ∷ 110 ∷ 116 ∷ []

-- The allocated box holds `garbage`; it stays allocated where the name is found.
unfoldable pub find_box : ℕ → Option ℕ → Box → Heap → Option ℕ → List ℕ → Walk (ℕ × Heap)
find_box rounds none garbage h head box_name = elim (find_from rounds h head box_name) [
  | returned r ↦ elim r [ none ↦ invalid | some a ↦ returned (a, h) ]
  | invalid ↦ invalid
  | unfinished ↦ unfinished
]
find_box rounds (some u) garbage h head box_name =
    let h' = put h u (some garbage) in
    elim (find_from rounds h' head box_name) [
      | returned r ↦ elim r [
        | none ↦
            let missing = record garbage {
              box_name = unexistent;
              n_readers = minus_one;
              has_writer = minus_one;
            } in
            returned (u, put h' u (some missing))
        | some a ↦ returned (a, h')
      ]
      | invalid ↦ invalid
      | unfinished ↦ unfinished
    ]

-- The loop of `insert_box`: the last box of the list from `temp` on.
unfoldable pub last_from : ℕ → Heap → ℕ → Walk ℕ
last_from zero h temp = unfinished
last_from (suc rounds) h temp = elim (h temp) [
  | none ↦ invalid
  | some b ↦ elim b.next [ none ↦ returned temp | some next ↦ last_from rounds h next ]
]

-- `p->next = v`
unfoldable pub set_next : Heap → ℕ → Option ℕ → Walk Heap
set_next h p v = elim (h p) [
  | none ↦ invalid
  | some b ↦ returned (put h p (some (record b { next = v })))
]

unfoldable pub link_last : ℕ → Heap → ℕ → ℕ → Walk Heap
link_last rounds h new_box temp = elim (last_from rounds h temp) [
  | returned last ↦ set_next h last (some new_box)
  | invalid ↦ invalid
  | unfinished ↦ unfinished
]

unfoldable pub insert_box : ℕ → Heap → ℕ → Option ℕ → Walk (Option ℕ × Heap)
insert_box rounds h new_box head = elim (set_next h new_box none) [
  | returned h' ↦ elim head [
    | none ↦ returned (some new_box, h')
    | some temp ↦ elim (link_last rounds h' new_box temp) [
      | returned h'' ↦ returned (some temp, h'')
      | invalid ↦ invalid
      | unfinished ↦ unfinished
    ]
  ]
  | invalid ↦ invalid
  | unfinished ↦ unfinished
]

-- The loop of `delete_box`, from `temp` behind `prev`: the two pointers where it stops.
unfoldable pub search_from : ℕ → Heap → ℕ → Option ℕ → List ℕ → Walk (ℕ × Option ℕ)
search_from zero h prev none box_name = returned (prev, none)
search_from zero h prev (some temp) box_name = unfinished
search_from (suc rounds) h prev none box_name = returned (prev, none)
search_from (suc rounds) h prev (some temp) box_name = elim (h temp) [
  | none ↦ invalid
  | some b ↦
      let rest = search_from rounds h temp b.next box_name in
      if name_eq b.box_name box_name then returned (prev, some temp) else rest
]

-- `prev->next = temp->next; free(temp)`
unfoldable pub unlink_box : Heap → ℕ → ℕ → Walk Heap
unlink_box h prev temp = elim (h temp) [
  | none ↦ invalid
  | some b ↦ elim (set_next h prev b.next) [
    | returned h' ↦ returned (put h' temp none)
    | invalid ↦ invalid
    | unfinished ↦ unfinished
  ]
]

unfoldable pub delete_behind : ℕ → Heap → ℕ → List ℕ → Walk (Option ℕ × Heap)
delete_behind rounds h head box_name = elim (search_from rounds h head (some head) box_name) [
  | returned r ↦ elim r.1 [
    | none ↦ returned (some head, h)
    | some temp ↦ elim (unlink_box h r.0 temp) [
      | returned h' ↦ returned (some head, h')
      | invalid ↦ invalid
      | unfinished ↦ unfinished
    ]
  ]
  | invalid ↦ invalid
  | unfinished ↦ unfinished
]

unfoldable pub delete_box : ℕ → Heap → List ℕ → Option ℕ → Walk (Option ℕ × Heap)
delete_box rounds h box_name none = returned (none, h)
delete_box rounds h box_name (some head) = elim (h head) [
  | none ↦ invalid
  | some b ↦
      if name_eq b.box_name box_name
      then returned (b.next, put h head none)
      else delete_behind rounds h head box_name
]

unfoldable pub free_boxes : ℕ → Heap → Option ℕ → Walk Heap
free_boxes zero h none = returned h
free_boxes zero h (some head) = unfinished
free_boxes (suc rounds) h none = returned h
free_boxes (suc rounds) h (some head) = elim (h head) [
  | none ↦ invalid
  | some b ↦ free_boxes rounds (put h head none) b.next
]

-- The walk of `iterate_box`, which does nothing with the boxes.
unfoldable pub iterate_box : ℕ → Heap → Option ℕ → Walk (Unit {0})
iterate_box zero h none = returned tt
iterate_box zero h (some c) = unfinished
iterate_box (suc rounds) h none = returned tt
iterate_box (suc rounds) h (some c) = elim (h c) [
  | none ↦ invalid
  | some b ↦ iterate_box rounds h b.next
]
