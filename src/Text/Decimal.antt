-- ===== src/Text/Decimal.antt =====
-- A number that `sprintf` has printed is read back by `sscanf`.
use t_cnico_file_system_pt.Prelude.{
  ℕ, zero, suc, ◌+◌, ◌-◌, ◌*◌, ◌/◌, ◌%◌, ◌≤◌, ◌<◌, ◌≡◌, refl, sym, ap, ◌∙◌, arith, ℤ, pos, negsuc,
  List, [], ◌∷◌, ◌++◌, true, false, ltb, Bool-cases, inl, inr, some, length, size_mod, ssize_half,
  size_mod, ssize_half,
}
use t_cnico_file_system_pt.Text.{
  is_digit, emit, show_nat, show_int, skip_space, read_digits, scan_digits, read_sign, signed,
  scan_int, unsigned, scan_long, show_long,
}

abbrev pub pow10 : ℕ → ℕ
pow10 zero = 1
pow10 (suc k) = 10 * pow10 k

-- The first byte that is printed is a digit.
emit_head :
    (more n : ℕ) (out : List ℕ)
    → (c : ℕ) × (t : List ℕ) × (emit more n out ≡ c ∷ t) × (is_digit c ≡ true)
unfolding emit
emit_head zero n out = (b'0' + n % 10, out, refl, ground arith)
emit_head (suc more) n out = elim (Bool-cases (ltb n 10)) [
  | inl h ↦ (b'0' + n, out, rw h refl, ground arith)
  | inr h ↦ let (c, t, e, d) = emit_head more (n / 10) ((b'0' + n % 10) ∷ out) in (c, t, rw h e, d)
]

read_digits-emit :
    (more n : ℕ) (out : List ℕ)
    → n < 10 * pow10 more
    → read_digits 0 (emit more n out) ≡ read_digits n out
unfolding emit read_digits
read_digits-emit zero n out h = ground arith
read_digits-emit (suc more) n out h =
    ground (arith, read_digits-emit more (n / 10) ((b'0' + n % 10) ∷ out))

emit-append : (more n : ℕ) (out rest : List ℕ) → emit more n out ++ rest ≡ emit more n (out ++ rest)
unfolding emit
emit-append zero n out rest = refl
emit-append (suc more) n out rest =
    ground (arith, emit-append more (n / 10) ((b'0' + n % 10) ∷ out) rest)

length-emit : (more n : ℕ) (out : List ℕ) → length (emit more n out) ≤ suc more + length out
unfolding emit
length-emit zero n out = omega arith
length-emit (suc more) n out = ground (arith, length-emit more (n / 10) ((b'0' + n % 10) ∷ out))

-- Nothing of the number goes on in the text behind it.
abbrev pub StartsNoDigit : List ℕ → Type 0
StartsNoDigit [] = Unit
StartsNoDigit (c ∷ s) = is_digit c ≡ false

read_digits-stop : (n : ℕ) (rest : List ℕ) → StartsNoDigit rest → read_digits n rest ≡ (n, rest)
unfolding read_digits
read_digits-stop n [] h = refl
read_digits-stop n (c ∷ s) h = rw h refl

scan_digits-show_nat :
    (n : ℕ) (rest : List ℕ)
    → n < pow10 20
    → StartsNoDigit rest
    → scan_digits (show_nat n ++ rest) ≡ some (n, rest)
unfolding scan_digits show_nat
scan_digits-show_nat n rest h stop =
    let (c, t, e, d) = emit_head 19 n rest in
    ap scan_digits (emit-append 19 n [] rest ∙ e)
    ∙ rw d (
        ap some (
          ap (read_digits 0) (sym e) ∙ read_digits-emit 19 n rest h ∙ read_digits-stop n rest stop))

show_nat_head :
    (n : ℕ) (rest : List ℕ)
    → (c : ℕ) × (t : List ℕ) × (show_nat n ++ rest ≡ c ∷ t) × (is_digit c ≡ true)
unfolding show_nat
show_nat_head n rest =
    let (c, t, e, d) = emit_head 19 n rest in (c, t, emit-append 19 n [] rest ∙ e, d)

-- A number of 20 digits at most.
abbrev pub IsPrintable : ℤ → Type 0
IsPrintable (pos n) = n < pow10 20
IsPrintable (negsuc n) = suc n < pow10 20

skip_space-digit : (c : ℕ) (t : List ℕ) → is_digit c ≡ true → skip_space (c ∷ t) ≡ c ∷ t
unfolding skip_space
skip_space-digit c t d = ground arith

read_sign-digit : (c : ℕ) (t : List ℕ) → is_digit c ≡ true → read_sign (c ∷ t) ≡ (false, c ∷ t)
unfolding read_sign
read_sign-digit c t d = ground arith

signed-pos : (n : ℕ) → signed false n ≡ pos n
signed-pos zero = refl
signed-pos (suc n) = refl

signed-neg : (n : ℕ) → signed true (suc n) ≡ negsuc n
signed-neg n = refl

scan_int-digits :
    (n c : ℕ) (t rest : List ℕ)
    → is_digit c ≡ true
    → scan_digits (c ∷ t) ≡ some (n, rest)
    → scan_int (c ∷ t) ≡ some (pos n, rest)
unfolding scan_int
scan_int-digits n c t rest d e =
    ground (arith, skip_space-digit c t d, read_sign-digit c t d, e, signed-pos n)

scan_int-minus :
    (n : ℕ) (t rest : List ℕ)
    → scan_digits t ≡ some (suc n, rest)
    → scan_int (b'-' ∷ t) ≡ some (negsuc n, rest)
unfolding scan_int skip_space read_sign
scan_int-minus n t rest e = ground (arith, e, signed-neg n)

-- A number that is printed and followed by no digit is read back, with what follows it.
pub scan_int-show_int :
    (z : ℤ) (rest : List ℕ)
    → IsPrintable z
    → StartsNoDigit rest
    → scan_int (show_int z ++ rest) ≡ some (z, rest)
unfolding show_int
scan_int-show_int (pos n) rest h stop =
    let (c, t, e, d) = show_nat_head n rest in
    ap scan_int e
    ∙ scan_int-digits n c t rest d (ap scan_digits (sym e) ∙ scan_digits-show_nat n rest h stop)
scan_int-show_int (negsuc n) rest h stop =
    scan_int-minus n (show_nat (suc n) ++ rest) rest (scan_digits-show_nat (suc n) rest h stop)

length-show_nat : (n : ℕ) → length (show_nat n) ≤ 20
unfolding show_nat
length-show_nat n = length-emit 19 n []

-- `%d` and `%ld` print 21 bytes at most.
pub length-show_int : (z : ℤ) → length (show_int z) ≤ 21
unfolding show_int
length-show_int (pos n) = omega (arith, length-show_nat n)
length-show_int (negsuc n) = omega (arith, length-show_nat (suc n))

unsigned-true : (n : ℕ) → n < size_mod → ssize_half ≤ n → unsigned true (size_mod - n) ≡ n
unsigned-true n h l = ground arith

scan_long-digits :
    (n c : ℕ) (t rest : List ℕ)
    → n < size_mod
    → is_digit c ≡ true
    → scan_digits (c ∷ t) ≡ some (n, rest)
    → scan_long (c ∷ t) ≡ some (n, rest)
unfolding scan_long
scan_long-digits n c t rest h d e = ground (arith, skip_space-digit c t d, read_sign-digit c t d, e)

scan_long-minus :
    (n : ℕ) (t rest : List ℕ)
    → n < size_mod
    → ssize_half ≤ n
    → scan_digits t ≡ some (size_mod - n, rest)
    → scan_long (b'-' ∷ t) ≡ some (n, rest)
unfolding scan_long skip_space read_sign
scan_long-minus n t rest h l e = ground (arith, e, unsigned-true n h l)

-- `%lu` reads what `%ld` has printed of a 64-bit number, the sign included.
pub scan_long-show_long :
    (n : ℕ) (rest : List ℕ)
    → n < size_mod
    → StartsNoDigit rest
    → scan_long (show_long n ++ rest) ≡ some (n, rest)
unfolding show_int
scan_long-show_long n rest h stop = elim (Bool-cases (ltb n ssize_half)) [
  | inl l ↦
      let (c, t, e, d) = show_nat_head n rest in
      rw l (
        ap scan_long e
        ∙ scan_long-digits n c t rest h d
            (ap scan_digits (sym e) ∙ scan_digits-show_nat n rest (omega arith) stop))
  | inr l ↦ rw l (
      scan_long-minus n (show_nat (suc (size_mod - 1 - n)) ++ rest) rest h (ground arith) (
        scan_digits-show_nat (suc (size_mod - 1 - n)) rest (omega arith) stop
        ∙ ap (λ k. some (k, rest)) (omega arith)))
]
