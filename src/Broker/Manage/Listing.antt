-- ===== src/Broker/Manage/Listing.antt =====
-- A request for the list of boxes, in `list_box` of mbroker/mbroker.c.
pub mod Lines
use t_cnico_file_system_pt.Prelude.{
  ℕ, zero, suc, ◌+◌, ◌≤◌, ◌<◌, ◌≡◌, refl, sym, ap, ◌∙◌, arith, ℤ, pos, is_minus_one, List, [], ◌∷◌,
  ◌++◌, true, false, Option, none, some, length, length-append, to_ssize,
}
use mathlib.Core.List.{append-nil, append_assoc}
use t_cnico_file_system_pt.State.Types.{done}
use t_cnico_file_system_pt.Boxes.{Box, Heap}
use t_cnico_file_system_pt.Boxes.Chain.{IsChain}
use t_cnico_file_system_pt.Text.{show_int, show_nat, show_long, emit}
use t_cnico_file_system_pt.Text.Decimal.{length-show_int}
use t_cnico_file_system_pt.Messages.{
  printed, Request, request_bytes, box_name_size, serialize_listing, list_answer,
}
use t_cnico_file_system_pt.Messages.RoundTrip.{listing_text}
use t_cnico_file_system_pt.Clients.{Event, sent, closed}
use t_cnico_file_system_pt.Broker.{Broker, World, Run, finished, send_request, to_uint64}
use t_cnico_file_system_pt.Broker.Post.{continue-eq, value-eq, load_box-eq}
use t_cnico_file_system_pt.Broker.Find.{IsBroker}
use t_cnico_file_system_pt.Broker.Manage.{
  list_from, list_none, list_all, list_box, last_flag, pointer_size,
}
use t_cnico_file_system_pt.Broker.Manage.Listing.Lines.{box_text, no_boxes, flag_of, messages}

-- The boxes of a list have names that fit their arrays.
abbrev pub FitNames : Heap → List ℕ → Type 0
FitNames h [] = Unit
FitNames h (a ∷ xs) = ((b : Box) → h a ≡ some b → length b.box_name < box_name_size) × FitNames h xs

length-listing_text :
    (last : ℕ) (name : List ℕ) (size pubs subs : ℕ)
    → length (listing_text last name size pubs subs) ≤ length name + 88
unfolding show_int
length-listing_text last name size pubs subs = omega (
  arith,
  length-show_int (pos last),
  length-append (show_nat last) (b' ' ∷ (name ++ after_name)),
  length-append name after_name,
  length-append (show_long size) (b' ' ∷ (show_long pubs ++ (b' ' ∷ show_long subs))),
  length-append (show_long pubs) (b' ' ∷ show_long subs),
  length-show_int (to_ssize size),
  length-show_int (to_ssize pubs),
  length-show_int (to_ssize subs),
)
  where
    after_name : List ℕ
    after_name = b' ' ∷ (show_long size ++ (b' ' ∷ (show_long pubs ++ (b' ' ∷ show_long subs))))

printed-done : (size : ℕ) (t : List ℕ) → length t < size → printed size t ≡ done t
printed-done size t h = ground arith

serialize_listing-eq :
    (last : ℕ) (name : List ℕ) (size pubs subs : ℕ)
    → length name < box_name_size
    → serialize_listing list_answer last name size pubs subs
      ≡ done (show_int list_answer ++ (b' ' ∷ listing_text last name size pubs subs))
unfolding serialize_listing
serialize_listing-eq last name size pubs subs fits =
    printed-done 1300 (show_int list_answer ++ (b' ' ∷ listing_text last name size pubs subs)) (
      omega (
        arith,
        fits,
        length-append (show_int list_answer) (b' ' ∷ listing_text last name size pubs subs),
        length-show_int list_answer,
        length-listing_text last name size pubs subs,
      ))

no_boxes-eq : serialize_listing list_answer 1 [] 0 0 0 ≡ done no_boxes
unfolding serialize_listing show_int show_nat emit
no_boxes-eq = refl

send-eq :
    (world : World) (fd : ℤ) (text : List ℕ) (s : Broker)
    → ((bytes : List ℕ) → world.accepts fd bytes ≡ true)
    → send_request world fd text s
      ≡ finished
          (tt, record s { events = s.events ++ (sent fd (request_bytes world.behind text) ∷ []) })
unfolding send_request
send-eq world fd text s takes = rw (takes (request_bytes world.behind text), send_request) refl

last_flag-chain :
    (h : Heap) (p : Option ℕ) (xs : List ℕ) → IsChain h p xs → last_flag p ≡ flag_of xs
last_flag-chain h p [] c = ap last_flag c
last_flag-chain h p (a ∷ xs) (e, b, at, c) = ap last_flag e

pub messages-cons :
    (world : World) (fd : ℤ) (h : Heap) (a : ℕ) (xs : List ℕ) (b : Box)
    → h a ≡ some b
    → messages world fd h (a ∷ xs)
      ≡ sent fd (request_bytes world.behind (box_text (flag_of xs) b)) ∷ messages world fd h xs
messages-cons world fd h a xs b e = rw (e, messages) refl

list_from-none :
    (rounds : ℕ) (world : World) (fd : ℤ) (s : Broker)
    → list_from rounds world fd none s ≡ finished (tt, s)
unfolding list_from
list_from-none zero world fd s = refl
list_from-none (suc rounds) world fd s = refl

list_from-some :
    (rounds : ℕ) (world : World) (fd : ℤ) (a : ℕ) (last : ℕ) (b : Box) (s : Broker)
    → s.heap a ≡ some b
    → last_flag b.next ≡ last
    → length b.box_name < box_name_size
    → ((bytes : List ℕ) → world.accepts fd bytes ≡ true)
    → list_from (suc rounds) world fd (some a) s
      ≡ list_from rounds world fd b.next (record s {
        events = s.events ++ (sent fd (request_bytes world.behind (box_text last b)) ∷ []);
      })
unfolding list_from
list_from-some rounds world fd a last b s at flag fits takes =
    continue-eq _ _ b s (load_box-eq a b s at)
    ∙ continue-eq _ _ (box_text last b) s (
        value-eq
          (serialize_listing list_answer (last_flag b.next) b.box_name pointer_size
            (to_uint64 b.has_writer) (to_uint64 b.n_readers))
          (box_text last b) s
          (serialize_listing-eq (last_flag b.next) b.box_name pointer_size (to_uint64 b.has_writer)
              (to_uint64 b.n_readers) fits
            ∙ ap (λ f. done (box_text f b)) flag))
    ∙ continue-eq _ _ tt _ (send-eq world fd (box_text last b) s takes)

-- The loop sends the messages for the boxes from `p` on.
list_from-messages :
    (rounds : ℕ) (world : World) (fd : ℤ) (p : Option ℕ) (xs : List ℕ) (s : Broker)
    → IsChain s.heap p xs
    → length xs ≤ rounds
    → FitNames s.heap xs
    → ((bytes : List ℕ) → world.accepts fd bytes ≡ true)
    → list_from rounds world fd p s
      ≡ finished (tt, record s { events = s.events ++ messages world fd s.heap xs })
list_from-messages rounds world fd p [] s c l fit takes =
    rw c (list_from-none rounds world fd s)
    ∙ ap (λ es. finished (tt, record s { events = es })) (sym (append-nil s.events))
list_from-messages zero world fd p (a ∷ xs) s c l fit takes = absurd (omega arith)
list_from-messages (suc rounds) world fd p (a ∷ xs) s (e, b, at, c) l fit takes =
    rw (e, messages-cons world fd s.heap a xs b at)
      (list_from-some rounds world fd a (flag_of xs) b s at (last_flag-chain s.heap b.next xs c)
          (fit.0 b at) takes
        ∙ list_from-messages rounds world fd b.next xs _ c (omega (arith, l)) fit.1 takes
        ∙ ap (λ es. finished (tt, record s { events = es }))
            (append_assoc s.events (_ ∷ []) (messages world fd s.heap xs)))

-- What the answer to a request for the list sends.
abbrev pub listing : World → ℤ → Heap → List ℕ → List Event
listing world fd h [] = sent fd (request_bytes world.behind no_boxes) ∷ []
listing world fd h (a ∷ xs) = messages world fd h (a ∷ xs)

list_none-eq :
    (world : World) (fd : ℤ) (s : Broker)
    → ((bytes : List ℕ) → world.accepts fd bytes ≡ true)
    → list_none world fd s
      ≡ finished (
        tt,
        record s { events = s.events ++ (sent fd (request_bytes world.behind no_boxes) ∷ []) },
      )
unfolding list_none
list_none-eq world fd s takes =
    continue-eq _ _ no_boxes s
      (value-eq (serialize_listing list_answer 1 [] 0 0 0) no_boxes s no_boxes-eq)
    ∙ send-eq world fd no_boxes s takes

list_all-head :
    (world : World) (fd : ℤ) (s : Broker) (p : Option ℕ)
    → s.head ≡ p
    → list_all world fd s ≡ elim p [
      | none ↦ list_none world fd s
      | some current ↦ list_from world.rounds world fd (some current) s
    ]
unfolding list_all
list_all-head world fd s p e =
    ap
      (λ p. elim p as (λ p. Run (Unit {0} × Broker)) [
        | none ↦ list_none world fd s
        | some current ↦ list_from world.rounds world fd (some current) s
      ])
      e

list_all-listing :
    (world : World) (fd : ℤ) (xs : List ℕ) (s : Broker)
    → IsChain s.heap s.head xs
    → length xs ≤ world.rounds
    → FitNames s.heap xs
    → ((bytes : List ℕ) → world.accepts fd bytes ≡ true)
    → list_all world fd s
      ≡ finished (tt, record s { events = s.events ++ listing world fd s.heap xs })
list_all-listing world fd [] s c l fit takes =
    list_all-head world fd s none c ∙ list_none-eq world fd s takes
list_all-listing world fd (a ∷ xs) s c l fit takes =
    list_all-head world fd s (some a) c.0
    ∙ ap (λ p. list_from world.rounds world fd p s) (sym c.0)
    ∙ list_from-messages world.rounds world fd s.head (a ∷ xs) s c l fit takes

-- Between two requests, let the names of the boxes fit their arrays, let there be a round for each
-- box, and let the pipe of the client open and take what is written. Then `list_box` returns, and
-- changes nothing. It writes one message for each box, in the order of the list, with the box's name
-- and its counts, and with the flag 1 for the last box and 0 for the others; or the one message
-- "8 1  0 0 0" if there is no box. Then it closes the pipe.
pub list_box-listing :
    (world : World) {xs : List ℕ} {s : Broker} (request : Request)
    → IsBroker xs s
    → length xs ≤ world.rounds
    → FitNames s.heap xs
    → is_minus_one (world.open_pipe request.client_pipe) ≡ false
    → ((bytes : List ℕ) → world.accepts (world.open_pipe request.client_pipe) bytes ≡ true)
    → list_box world request s
      ≡ finished (
        tt,
        record s {
          events =
              (s.events ++ listing world (world.open_pipe request.client_pipe) s.heap xs)
              ++ (closed (world.open_pipe request.client_pipe) ∷ []);
        },
      )
unfolding list_box
list_box-listing world {xs} {s} request ok enough fit opens takes =
    rw (opens, list_box)
      (continue-eq _ _ tt _ (
        list_all-listing world (world.open_pipe request.client_pipe) xs s ok.chain enough fit
          takes))
