-- ===== src/Text.antt =====
-- What the messages of utils/logging.c use of the C library: `sprintf` with `%d`, `%ld` and `%s`,
-- and `sscanf` with `%d`, `%lu`, `%s` and `%[^\n]`. A string is the list of its bytes without the
-- NUL.
pub mod Decimal
pub mod Words
use t_cnico_file_system_pt.Prelude.{
  ℕ, zero, suc, ◌+◌, ◌-◌, ◌*◌, ◌/◌, ◌%◌, ℤ, pos, negsuc, int_half, List, [], ◌∷◌, Bool, true, false,
  ltb, leb, ◌==◌, ◌&&◌, ◌||◌, not, if◌then◌else◌, Option, none, some, size_mod, to_ssize,
}

-- `isspace`: tab, newline, vertical tab, form feed, carriage return and space.
abbrev pub is_space : ℕ → Bool
is_space c = c == b' ' || (leb 9 c && leb c 13)

abbrev pub is_digit : ℕ → Bool
is_digit c = leb b'0' c && leb c b'9'

-- The digits of `n` before `out`. The argument says how many may stand before the last one.
unfoldable pub emit : ℕ → ℕ → List ℕ → List ℕ
emit zero n out = (b'0' + n % 10) ∷ out
emit (suc more) n out =
    let rest = emit more (n / 10) ((b'0' + n % 10) ∷ out) in
    if ltb n 10 then (b'0' + n) ∷ out else rest

-- `%lu`: 64 bits have 20 digits at most.
unfoldable pub show_nat : ℕ → List ℕ
show_nat n = emit 19 n []

-- `%d` and `%ld`.
unfoldable pub show_int : ℤ → List ℕ
show_int (pos n) = show_nat n
show_int (negsuc n) = b'-' ∷ show_nat (suc n)

-- `%ld` of a `uint64_t`.
abbrev pub show_long : ℕ → List ℕ
show_long n = show_int (to_ssize n)

unfoldable pub skip_space : List ℕ → List ℕ
skip_space [] = []
skip_space (c ∷ s) = let rest = skip_space s in if is_space c then rest else c ∷ s

-- The number that the first digits spell behind `acc`, and what follows them.
unfoldable pub read_digits : ℕ → List ℕ → ℕ × List ℕ
read_digits acc [] = (acc, [])
read_digits acc (c ∷ s) =
    let rest = read_digits (acc * 10 + (c - b'0')) s in if is_digit c then rest else (acc, c ∷ s)

unfoldable pub scan_digits : List ℕ → Option (ℕ × List ℕ)
scan_digits [] = none
scan_digits (c ∷ s) = if is_digit c then some (read_digits 0 (c ∷ s)) else none

-- Whether a minus sign stands first, and what follows the sign.
unfoldable pub read_sign : List ℕ → Bool × List ℕ
read_sign [] = (false, [])
read_sign (c ∷ s) =
    if c == b'-' then (true, s) else if c == b'+' then (false, s) else (false, c ∷ s)

abbrev pub signed : Bool → ℕ → ℤ
signed minus zero = pos 0
signed true (suc n) = negsuc n
signed false (suc n) = pos (suc n)

-- `%d`: the number and what follows it, or nothing where no number stands.
unfoldable pub scan_int : List ℕ → Option (ℤ × List ℕ)
unfolding read_sign
scan_int s =
    let r = read_sign (skip_space s) in
    elim (scan_digits r.1) [ none ↦ none | some d ↦ some (signed r.0 d.0, d.1) ]

-- Whether a number fits `int`; `%d` of one that does not is undefined.
abbrev pub fits_int : ℤ → Bool
fits_int (pos n) = ltb n int_half
fits_int (negsuc n) = ltb n int_half

-- `%lu`: a number modulo 2^64, the greatest one if it is too large.
abbrev pub unsigned : Bool → ℕ → ℕ
unsigned minus n =
    if ltb n size_mod then (if minus then (size_mod - n) % size_mod else n) else size_mod - 1

unfoldable pub scan_long : List ℕ → Option (ℕ × List ℕ)
unfolding read_sign
scan_long s =
    let r = read_sign (skip_space s) in
    elim (scan_digits r.1) [ none ↦ none | some d ↦ some (unsigned r.0 d.0, d.1) ]

-- The bytes before the first space, and what follows them.
unfoldable pub read_word : List ℕ → List ℕ × List ℕ
read_word [] = ([], [])
read_word (c ∷ s) =
    let rest = read_word s in if is_space c then ([], c ∷ s) else (c ∷ rest.0, rest.1)

-- `%s`: a word of one byte at least.
unfoldable pub scan_word : List ℕ → Option (List ℕ × List ℕ)
scan_word s = elim (skip_space s) [ [] ↦ none | c ∷ t ↦ some (read_word (c ∷ t)) ]

-- The bytes before the first newline, and what follows them.
unfoldable pub read_line : List ℕ → List ℕ × List ℕ
read_line [] = ([], [])
read_line (c ∷ s) =
    let rest = read_line s in if c == b'\n' then ([], c ∷ s) else (c ∷ rest.0, rest.1)

-- ` %[^\n]`: spaces are skipped, then a line of one byte at least is read.
unfoldable pub scan_line : List ℕ → Option (List ℕ × List ℕ)
scan_line s =
    let r = read_line (skip_space s) in elim r.0 [ [] ↦ none | c ∷ line ↦ some (c ∷ line, r.1) ]

-- The string in an array of bytes, if a NUL ends it.
unfoldable pub c_string : List ℕ → Option (List ℕ)
c_string [] = none
c_string (c ∷ s) =
    let rest = c_string s in
    if c == 0 then some [] else elim rest [ none ↦ none | some t ↦ some (c ∷ t) ]
