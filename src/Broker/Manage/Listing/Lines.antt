-- ===== src/Broker/Manage/Listing/Lines.antt =====
-- The texts for the boxes of a list.
use t_cnico_file_system_pt.Prelude.{ℕ, ℤ, List, [], ◌∷◌, ◌++◌, none, some}
use t_cnico_file_system_pt.Boxes.{Box, Heap}
use t_cnico_file_system_pt.Text.{show_int}
use t_cnico_file_system_pt.Messages.{request_bytes, list_answer}
use t_cnico_file_system_pt.Messages.RoundTrip.{listing_text}
use t_cnico_file_system_pt.Clients.{Event, sent}
use t_cnico_file_system_pt.Broker.{World, to_uint64}
use t_cnico_file_system_pt.Broker.Manage.{pointer_size}

-- The text for a box: its flag, its name, the size of a pointer, and its counts.
abbrev pub box_text : ℕ → Box → List ℕ
box_text last b =
    show_int list_answer
    ++ (b' '
        ∷ listing_text last b.box_name pointer_size (to_uint64 b.has_writer)
            (to_uint64 b.n_readers))

-- "8 1  0 0 0"
abbrev pub no_boxes : List ℕ
no_boxes = 56 ∷ 32 ∷ 49 ∷ 32 ∷ 32 ∷ 48 ∷ 32 ∷ 48 ∷ 32 ∷ 48 ∷ []

abbrev pub flag_of : List ℕ → ℕ
flag_of [] = 1
flag_of (a ∷ xs) = 0

-- The messages for the boxes of a list, the last with the flag 1.
abbrev pub messages : World → ℤ → Heap → List ℕ → List Event
messages world fd h [] = []
messages world fd h (a ∷ xs) = elim (h a) [
  | none ↦ messages world fd h xs
  | some b ↦ sent fd (request_bytes world.behind (box_text (flag_of xs) b)) ∷ messages world fd h xs
]
