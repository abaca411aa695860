-- ===== src/Messages/RoundTrip.antt =====
-- A message that a serializer has printed is read back by the call of `sscanf` for it.
use t_cnico_file_system_pt.Prelude.{
  ℕ, ◌≤◌, ◌<◌, ◌≡◌, refl, sym, ap, ◌∙◌, arith, ℤ, pos, negsuc, List, [], ◌∷◌, ◌++◌, true, false,
  ltb, length, length-append, some, int_half, size_mod, Bool-cases, inl, inr,
}
use t_cnico_file_system_pt.State.Types.{Outcome, done, fault}
use t_cnico_file_system_pt.State.Bytes.{IsInt}
use mathlib.Core.List.{append-nil}
use t_cnico_file_system_pt.State.Dir.Listing.{IsCString}
use t_cnico_file_system_pt.Text.{
  show_int, show_nat, scan_int, fits_int, c_string, scan_long, show_long, skip_space,
}
use t_cnico_file_system_pt.Text.Decimal.{
  scan_int-show_int, StartsNoDigit, IsPrintable, length-show_int, scan_long-show_long,
}
use t_cnico_file_system_pt.Text.Words.{
  IsWord, scan_word-append, scan_word_self, c_string-take, IsCString-append, IsCString-show_int,
  scan_word-space, scan_word-nil, scan_line-append, scan_line-space, HasNoNewline, StartsSolid,
  StartsNewline, IsSolid,
}
use t_cnico_file_system_pt.Messages.{
  serialize, serialize_message, scan_request, Request, pipe_name_size, box_name_size, scan_coded,
  message_size, Listed, scan_listed, request_bytes,
}

fits_int-IsInt : (z : ℤ) → IsInt z → fits_int z ≡ true
fits_int-IsInt (pos n) h = ground arith
fits_int-IsInt (negsuc n) h = ground arith

IsInt-IsPrintable : (z : ℤ) → IsInt z → IsPrintable z
IsInt-IsPrintable (pos n) h = omega arith
IsInt-IsPrintable (negsuc n) h = omega arith

-- The request of a client: its text.
abbrev pub request_text : ℤ → List ℕ → List ℕ → List ℕ
request_text code p b = show_int code ++ (b' ' ∷ (p ++ (b' ' ∷ b)))

scan_code :
    (z : ℤ) (rest : List ℕ)
    → IsInt z
    → StartsNoDigit rest
    → scan_int (show_int z ++ rest) ≡ some (z, rest)
scan_code z rest h = scan_int-show_int z rest (IsInt-IsPrintable z h)

-- A request is read back, whatever the variables held.
scan_request-text :
    (old : Request) (code : ℤ) (p b : List ℕ)
    → IsInt code
    → IsWord p
    → length p < pipe_name_size
    → IsWord b
    → length b < box_name_size
    → scan_request old (request_text code p b)
      ≡ done (record { code = code; client_pipe = p; box_name = b })
unfolding scan_request
scan_request-text old code p b z wp lp wb lb = ground (
  arith,
  scan_code code (b' ' ∷ (p ++ (b' ' ∷ b))) z refl,
  fits_int-IsInt code z,
  scan_word-space b' ' (p ++ (b' ' ∷ b)) refl,
  scan_word-append p (b' ' ∷ b) wp refl,
  scan_word-space b' ' b refl,
  scan_word_self b wb,
)

-- A request with an empty box name leaves the name that the variable held.
scan_request-no_box :
    (old : Request) (code : ℤ) (p : List ℕ)
    → IsInt code
    → IsWord p
    → length p < pipe_name_size
    → scan_request old (request_text code p []) ≡ done (record old { code = code; client_pipe = p })
unfolding scan_request
scan_request-no_box old code p z wp lp = ground (
  arith,
  scan_code code (b' ' ∷ (p ++ (b' ' ∷ []))) z refl,
  fits_int-IsInt code z,
  scan_word-space b' ' (p ++ (b' ' ∷ [])) refl,
  scan_word-append p (b' ' ∷ []) wp refl,
  scan_word-space b' ' [] refl,
  scan_word-nil,
)

-- A box name that does not fit the array of the variable is written past its end.
scan_request-long_box :
    (old : Request) (code : ℤ) (p b : List ℕ)
    → IsInt code
    → IsWord p
    → length p < pipe_name_size
    → IsWord b
    → box_name_size ≤ length b
    → scan_request old (request_text code p b) ≡ fault
unfolding scan_request
scan_request-long_box old code p b z wp lp wb lb = ground (
  arith,
  scan_code code (b' ' ∷ (p ++ (b' ' ∷ b))) z refl,
  fits_int-IsInt code z,
  scan_word-space b' ' (p ++ (b' ' ∷ b)) refl,
  scan_word-append p (b' ' ∷ b) wp refl,
  scan_word-space b' ' b refl,
  scan_word_self b wb,
)

-- What the clients' checks let through: names that `%s` reads whole and that fit their arrays. The
-- box name has the slash before it.
pub record IsRequest (code : ℤ) (p b : List ℕ) : Type 0 where
  pub is_int : IsInt code
  pub pipe_string : IsCString p
  pub pipe_word : IsWord p
  pub pipe_fits : length p < pipe_name_size
  pub box_string : IsCString b
  pub box_fits : length b ≤ box_name_size

IsCString-request_text :
    (code : ℤ) (p b : List ℕ) → IsCString p → IsCString b → IsCString (request_text code p b)
IsCString-request_text code p b u v =
    IsCString-append (show_int code) (b' ' ∷ (p ++ (b' ' ∷ b))) (IsCString-show_int code)
      ((λ e. omega (arith, e)), IsCString-append p (b' ' ∷ b) u ((λ e. omega (arith, e)), v))

length-request_text :
    (code : ℤ) (p b : List ℕ)
    → length p < pipe_name_size
    → length b ≤ box_name_size
    → length (request_text code p b) < 400
length-request_text code p b lp lb = omega (
  arith,
  length-append (show_int code) (b' ' ∷ (p ++ (b' ' ∷ b))),
  length-append p (b' ' ∷ b),
  length-show_int code,
)

-- How the broker reads a request, whatever it read before: it gets the names that were sent, the
-- earlier box name where none was sent, or writes past the array where the name has 32 bytes.
pub data Received (old : Request) (code : ℤ) (p b : List ℕ) (o : Outcome Request) : Type 0 where
  whole :
      IsWord b
      → length b < box_name_size
      → o ≡ done (record { code = code; client_pipe = p; box_name = b })
      → Received old code p b o
  no_box : b ≡ [] → o ≡ done (record old { code = code; client_pipe = p }) → Received old code p b o
  overflow : IsWord b → length b ≡ box_name_size → o ≡ fault → Received old code p b o

scan_request-Received :
    (old : Request) (code : ℤ) (p b : List ℕ)
    → IsRequest code p b
    → IsSolid b
    → Received old code p b (scan_request old (request_text code p b))
scan_request-Received old code p [] r u =
    no_box refl (scan_request-no_box old code p r.is_int r.pipe_word r.pipe_fits)
scan_request-Received old code p (c ∷ b) r u =
    elim (Bool-cases (ltb (length (c ∷ b)) box_name_size)) [
      | inl short ↦ whole word (ground arith) (
          scan_request-text old code p (c ∷ b) r.is_int r.pipe_word r.pipe_fits word (ground arith))
      | inr long ↦ overflow word (omega (arith, r.box_fits, not_short long)) (
          scan_request-long_box old code p (c ∷ b) r.is_int r.pipe_word r.pipe_fits word
            (not_short long))
    ]
  where
    word : IsWord (c ∷ b)
    word = record { solid = u; nonempty = λ e. ground (arith, e) }

    not_short : ltb (length (c ∷ b)) box_name_size ≡ false → box_name_size ≤ length (c ∷ b)
    not_short h = ground arith

-- A request whose pipe's name is a word of less than 256 bytes, and whose box name is empty or a
-- word of at most 32 bytes, fits the 400 bytes of the message. From these 400 bytes, whatever
-- stands behind the message there and in the broker's buffer, the broker reads the same code and
-- names, with two exceptions: where the box name is empty it keeps the one of the request before,
-- and where it has 32 bytes the broker writes past the end of its array.
pub serialize-Received :
    (code : ℤ) (p b : List ℕ)
    → IsRequest code p b
    → IsSolid b
    → (text : List ℕ) × (serialize code p b ≡ done text)
      × ((behind rest : List ℕ) → c_string (request_bytes behind text ++ rest) ≡ some text)
      × ((old : Request) → Received old code p b (scan_request old text))
unfolding serialize request_bytes
serialize-Received code p b r u =
    let fits = length-request_text code p b r.pipe_fits r.box_fits in
    (
      request_text code p b,
      ground (arith, fits),
      (λ behind rest.
          c_string-take 400 (request_text code p b) behind rest
            (IsCString-request_text code p b r.pipe_string r.box_string) fits),
      λ old. scan_request-Received old code p b r u,
    )

-- A line that does not start with a space and holds no newline, sent with its code and with any
-- line end, is read back with the code if it and its NUL fit the array of 1024 bytes; both
-- variables are then set.
pub scan_coded-serialize_message :
    (old_code code : ℤ) (old line tail : List ℕ)
    → IsInt code
    → HasNoNewline line
    → StartsSolid line
    → StartsNewline tail
    → length line < message_size
    → length tail ≤ 1
    → (text : List ℕ) × (serialize_message code (line ++ tail) ≡ done text)
      × (scan_coded old_code old text ≡ done (record { code = code; line = line; count = 2 }))
unfolding serialize_message scan_coded
scan_coded-serialize_message old_code code old line tail z u v w fits one = (
  show_int code ++ (b' ' ∷ (line ++ tail)),
  ground (
    arith,
    length-append (show_int code) (b' ' ∷ (line ++ tail)),
    length-append line tail,
    length-show_int code,
  ),
  ground (
    arith,
    scan_code code (b' ' ∷ (line ++ tail)) z refl,
    fits_int-IsInt code z,
    scan_line-space b' ' (line ++ tail) refl,
    scan_line-append line tail u v w,
  ),
)

-- The text of a listing behind its code.
abbrev pub listing_text : ℕ → List ℕ → ℕ → ℕ → ℕ → List ℕ
listing_text last name size pubs subs =
    show_nat last
    ++ (b' '
        ∷ (name
            ++ (b' ' ∷ (show_long size ++ (b' ' ∷ (show_long pubs ++ (b' ' ∷ show_long subs)))))))

scan_nat :
    (n : ℕ) (rest : List ℕ)
    → n < int_half
    → StartsNoDigit rest
    → scan_int (show_nat n ++ rest) ≡ some (pos n, rest)
unfolding show_int
scan_nat n rest h stop = scan_int-show_int (pos n) rest (omega arith) stop

scan_long-space :
    (n : ℕ) (rest : List ℕ)
    → n < size_mod
    → StartsNoDigit rest
    → scan_long (b' ' ∷ (show_long n ++ rest)) ≡ some (n, rest)
unfolding scan_long skip_space
scan_long-space n rest h stop = scan_long-show_long n rest h stop

scan_long-last : (n : ℕ) → n < size_mod → scan_long (b' ' ∷ show_long n) ≡ some (n, [])
scan_long-last n h =
    ap (λ t. scan_long (b' ' ∷ t)) (sym (append-nil (show_long n))) ∙ scan_long-space n [] h tt

-- The manager reads the flag, the name and the three counts of a line of a listing as they were
-- sent, if the flag fits `int`, the name is a word that fits its array and the counts have 64 bits;
-- a count that is negative when it is printed comes back as the same 64 bits.
pub scan_listed-listing_text :
    (old : Listed) (last : ℕ) (name : List ℕ) (size pubs subs : ℕ)
    → last < int_half
    → IsWord name
    → length name < box_name_size
    → size < size_mod
    → pubs < size_mod
    → subs < size_mod
    → scan_listed old (listing_text last name size pubs subs)
      ≡ done (record {
        last = pos last;
        name = name;
        size = size;
        publishers = pubs;
        subscribers = subs;
      })
unfolding scan_listed
scan_listed-listing_text old last name size pubs subs hl wn ln hs hp hb = ground (
  arith,
  scan_nat last (b' ' ∷ (name ++ after_name)) hl refl,
  scan_word-space b' ' (name ++ after_name) refl,
  scan_word-append name after_name wn refl,
  scan_long-space size after_size hs refl,
  scan_long-space pubs after_pubs hp refl,
  scan_long-last subs hb,
)
  where
    after_pubs : List ℕ
    after_pubs = b' ' ∷ show_long subs

    after_size : List ℕ
    after_size = b' ' ∷ (show_long pubs ++ after_pubs)

    after_name : List ℕ
    after_name = b' ' ∷ (show_long size ++ after_size)
