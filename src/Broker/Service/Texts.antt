-- ===== src/Broker/Service/Texts.antt =====
-- The texts of mbroker/mbroker.c about boxes without publishers and subscribers.
use t_cnico_file_system_pt.Prelude.{ℕ, ◌≡◌, refl, ap, ◌∙◌, ℤ, pos, List, [], ◌∷◌, ◌++◌}
use mathlib.Core.Path.{ap₂}
use t_cnico_file_system_pt.Operations.Open.{slash}
use t_cnico_file_system_pt.Boxes.{Box, Heap}
use t_cnico_file_system_pt.Text.{show_int}
use t_cnico_file_system_pt.Messages.{request_bytes, list_answer}
use t_cnico_file_system_pt.Messages.RoundTrip.{listing_text}
use t_cnico_file_system_pt.Broker.Manage.{pointer_size}
use t_cnico_file_system_pt.Clients.{Event, sent}
use t_cnico_file_system_pt.Broker.{World}
use t_cnico_file_system_pt.Broker.Manage.Listing.{listing, messages-cons}
use t_cnico_file_system_pt.Broker.Manage.Listing.Lines.{box_text, flag_of, messages, no_boxes}
use t_cnico_file_system_pt.Broker.Service.Boxes.{AreNamed, holding}

-- The text about a box of that name, and the answers to a request for the list.
abbrev pub name_text : List ℕ → List (List ℕ) → List ℕ
name_text n [] = show_int list_answer ++ (b' ' ∷ listing_text 1 (slash ∷ n) pointer_size 0 0)
name_text n (m ∷ names) =
    show_int list_answer ++ (b' ' ∷ listing_text 0 (slash ∷ n) pointer_size 0 0)

abbrev name_lines : World → ℤ → List (List ℕ) → List Event
name_lines world fd [] = []
name_lines world fd (n ∷ names) =
    sent fd (request_bytes world.behind (name_text n names)) ∷ name_lines world fd names

abbrev pub names_listing : World → ℤ → List (List ℕ) → List Event
names_listing world fd [] = sent fd (request_bytes world.behind no_boxes) ∷ []
names_listing world fd (n ∷ names) = name_lines world fd (n ∷ names)

name_text-box :
    (h : Heap) (xs : List ℕ) (names : List (List ℕ)) (n : List ℕ) (b : Box)
    → AreNamed h xs names
    → b.box_name ≡ slash ∷ n
    → b.has_writer ≡ pos 0
    → b.n_readers ≡ pos 0
    → box_text (flag_of xs) b ≡ name_text n names
name_text-box h [] [] n b d e w r = rw (e, w, r) refl
name_text-box h [] (m ∷ names) n b d e w r = elim d [ ]
name_text-box h (a ∷ xs) [] n b d e w r = elim d [ ]
name_text-box h (a ∷ xs) (m ∷ names) n b d e w r = rw (e, w, r) refl

messages-AreNamed :
    (world : World) (fd : ℤ) (h : Heap) (xs : List ℕ) (names : List (List ℕ))
    → AreNamed h xs names
    → messages world fd h xs ≡ name_lines world fd names
messages-AreNamed world fd h [] [] d = refl
messages-AreNamed world fd h [] (m ∷ names) d = elim d [ ]
messages-AreNamed world fd h (a ∷ xs) [] d = elim d [ ]
messages-AreNamed world fd h (a ∷ xs) (m ∷ names) (c, f, d) =
    let k = holding (h a) (slash ∷ m) c in
    messages-cons world fd h a xs k.box k.here
    ∙ ap₂ ◌∷◌
        (ap (λ t. sent fd (request_bytes world.behind t))
          (name_text-box h xs names m k.box d k.has_the_name k.no_writer k.no_readers))
        (messages-AreNamed world fd h xs names d)

pub listing-AreNamed :
    (world : World) (fd : ℤ) (h : Heap) (xs : List ℕ) (names : List (List ℕ))
    → AreNamed h xs names
    → listing world fd h xs ≡ names_listing world fd names
listing-AreNamed world fd h [] [] d = refl
listing-AreNamed world fd h [] (m ∷ names) d = elim d [ ]
listing-AreNamed world fd h (a ∷ xs) [] d = elim d [ ]
listing-AreNamed world fd h (a ∷ xs) (m ∷ names) d =
    messages-AreNamed world fd h (a ∷ xs) (m ∷ names) d
