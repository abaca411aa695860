-- ===== src/Tests/Messages.antt =====
-- The theorems on the messages of utils/logging.c, at short ones.
use t_cnico_file_system_pt.Prelude.{ℕ, ◌≡◌, refl, arith, pos, List, [], ◌∷◌, ◌++◌, some}
use t_cnico_file_system_pt.State.Types.{done}
use t_cnico_file_system_pt.Text.{c_string}
use t_cnico_file_system_pt.Messages.{
  Request, serialize, scan_request, request_bytes, serialize_message, scan_coded, scan_listed,
}
use t_cnico_file_system_pt.Messages.RoundTrip.{
  Received, IsRequest, listing_text, serialize-Received, scan_coded-serialize_message,
  scan_listed-listing_text,
}

-- "p" and "/b"
request : IsRequest (pos 1) (112 ∷ []) (47 ∷ 98 ∷ [])
request = record {
  is_int = omega arith;
  pipe_string = ((λ e. omega arith), tt);
  pipe_word = record { solid = (refl, tt); nonempty = λ e. ground (arith, e) };
  pipe_fits = omega arith;
  box_string = ((λ e. omega arith), ((λ e. omega arith), tt));
  box_fits = omega arith;
}

serialize-Received_example :
    (text : List ℕ) × (serialize (pos 1) (112 ∷ []) (47 ∷ 98 ∷ []) ≡ done text)
    × ((behind rest : List ℕ) → c_string (request_bytes behind text ++ rest) ≡ some text)
    × ((old : Request) → Received old (pos 1) (112 ∷ []) (47 ∷ 98 ∷ []) (scan_request old text))
serialize-Received_example =
    serialize-Received (pos 1) (112 ∷ []) (47 ∷ 98 ∷ []) request (refl, (refl, tt))

-- "hi" with a newline
scan_coded-serialize_message_example :
    (text : List ℕ) × (serialize_message (pos 9) ((104 ∷ 105 ∷ []) ++ (10 ∷ [])) ≡ done text)
    × (scan_coded (pos 0) [] text
        ≡ done (record { code = pos 9; line = 104 ∷ 105 ∷ []; count = 2 }))
scan_coded-serialize_message_example =
    scan_coded-serialize_message (pos 0) (pos 9) [] (104 ∷ 105 ∷ []) (10 ∷ []) (omega arith)
      (refl, (refl, tt)) refl refl (omega arith) (omega arith)

scan_listed-listing_text_example :
    scan_listed
      (record { last = pos 0; name = []; size = 0; publishers = 0; subscribers = 0 })
      (listing_text 1 (47 ∷ 98 ∷ []) 8 1 2)
    ≡ done (record { last = pos 1; name = 47 ∷ 98 ∷ []; size = 8; publishers = 1; subscribers = 2 })
scan_listed-listing_text_example =
    scan_listed-listing_text
      (record { last = pos 0; name = []; size = 0; publishers = 0; subscribers = 0 }) 1
      (47 ∷ 98 ∷ []) 8 1 2 (omega arith)
      (record { solid = (refl, (refl, tt)); nonempty = λ e. ground (arith, e) }) (omega arith)
      (omega arith) (omega arith) (omega arith)
