-- ===== src/Text/Words.antt =====
-- A word or a line that `sprintf` has printed is read back by `sscanf`.
use t_cnico_file_system_pt.Prelude.{
  ℕ, ◌≡◌, ◌≢◌, refl, sym, ap, ◌∙◌, arith, List, [], ◌∷◌, ◌++◌, true, false, ◌==◌, zero, suc, ◌+◌,
  ◌/◌, ◌%◌, ◌<◌, length, take, ltb, Bool-cases, inl, inr, ℤ, pos, negsuc, none, some,
}
use mathlib.Core.List.{append-nil}
use t_cnico_file_system_pt.State.Dir.Listing.{IsCString}
use t_cnico_file_system_pt.Text.{
  is_space, skip_space, read_word, scan_word, read_line, scan_line, c_string, emit, show_nat,
  show_int,
}

-- No byte is a space.
abbrev pub IsSolid : List ℕ → Type 0
IsSolid [] = Unit
IsSolid (c ∷ s) = (is_space c ≡ false) × IsSolid s

-- A word: a byte at least, and no spaces.
pub record IsWord (s : List ℕ) : Type 0 where
  pub solid : IsSolid s
  pub nonempty : s ≢ []

-- The text is at its end, or a space stands next.
abbrev pub StartsSpace : List ℕ → Type 0
StartsSpace [] = Unit
StartsSpace (c ∷ s) = is_space c ≡ true

read_word-append :
    (w rest : List ℕ) → IsSolid w → StartsSpace rest → read_word (w ++ rest) ≡ (w, rest)
unfolding read_word
read_word-append [] [] u v = refl
read_word-append [] (c ∷ s) u v = rw v refl
read_word-append (c ∷ w) rest u v = rw (u.0, read_word-append w rest u.1 v) refl

-- A word is read back, behind a space or not, with what follows it.
pub scan_word-append :
    (w rest : List ℕ) → IsWord w → StartsSpace rest → scan_word (w ++ rest) ≡ some (w, rest)
unfolding scan_word skip_space
scan_word-append [] rest u v = absurd (u.nonempty refl)
scan_word-append (c ∷ w) rest u v =
    ground (arith, u.solid.0, read_word-append (c ∷ w) rest u.solid v)

pub scan_word_self : (w : List ℕ) → IsWord w → scan_word w ≡ some (w, [])
scan_word_self w u = ap scan_word (sym (append-nil w)) ∙ scan_word-append w [] u tt

pub scan_word-space : (c : ℕ) (s : List ℕ) → is_space c ≡ true → scan_word (c ∷ s) ≡ scan_word s
unfolding scan_word skip_space
scan_word-space c s h = ground (arith, h)

pub scan_word-nil : scan_word [] ≡ none
unfolding scan_word skip_space
scan_word-nil = refl

-- A line: a byte at least, none a newline, and the first no space.
abbrev pub HasNoNewline : List ℕ → Type 0
HasNoNewline [] = Unit
HasNoNewline (c ∷ s) = ((c == b'\n') ≡ false) × HasNoNewline s

abbrev pub StartsSolid : List ℕ → Type 0
StartsSolid [] = ⊥
StartsSolid (c ∷ s) = is_space c ≡ false

abbrev pub StartsNewline : List ℕ → Type 0
StartsNewline [] = Unit
StartsNewline (c ∷ s) = (c == b'\n') ≡ true

read_line-append :
    (l rest : List ℕ) → HasNoNewline l → StartsNewline rest → read_line (l ++ rest) ≡ (l, rest)
unfolding read_line
read_line-append [] [] u v = refl
read_line-append [] (c ∷ s) u v = rw v refl
read_line-append (c ∷ l) rest u v = rw (u.0, read_line-append l rest u.1 v) refl

pub scan_line-append :
    (l rest : List ℕ)
    → HasNoNewline l
    → StartsSolid l
    → StartsNewline rest
    → scan_line (l ++ rest) ≡ some (l, rest)
unfolding scan_line skip_space
scan_line-append [] rest u f v = absurd f
scan_line-append (c ∷ l) rest u f v = ground (arith, f, read_line-append (c ∷ l) rest u v)

pub scan_line-space : (c : ℕ) (s : List ℕ) → is_space c ≡ true → scan_line (c ∷ s) ≡ scan_line s
unfolding scan_line skip_space
scan_line-space c s h = ground (arith, h)

-- A string with its NUL, whatever stands behind it.
pub c_string-append : (s t : List ℕ) → IsCString s → c_string (s ++ (0 ∷ t)) ≡ some s
unfolding c_string
c_string-append [] t u = refl
c_string-append (c ∷ s) t u = ground (arith, u.0, c_string-append s t u.1)

-- The string at the start of the first `n` bytes.
pub c_string-take :
    (n : ℕ) (s t r : List ℕ)
    → IsCString s
    → length s < n
    → c_string (take n (s ++ (0 ∷ t)) ++ r) ≡ some s
unfolding c_string
c_string-take zero s t r u h = absurd (omega arith)
c_string-take (suc n) [] t r u h = refl
c_string-take (suc n) (c ∷ s) t r u h = ground (arith, u.0, c_string-take n s t r u.1 (omega arith))

pub IsCString-append : (s t : List ℕ) → IsCString s → IsCString t → IsCString (s ++ t)
IsCString-append [] t u v = v
IsCString-append (c ∷ s) t u v = (u.0, IsCString-append s t u.1 v)

IsCString-emit : (more n : ℕ) (out : List ℕ) → IsCString out → IsCString (emit more n out)
unfolding emit
IsCString-emit zero n out u = (λ e. omega (arith, e), u)
IsCString-emit (suc more) n out u = elim (Bool-cases (ltb n 10)) [
  | inl h ↦ rw h (λ e. omega (arith, e), u)
  | inr h ↦ rw h (IsCString-emit more (n / 10) ((b'0' + n % 10) ∷ out) (λ e. omega (arith, e), u))
]

pub IsCString-show_int : (z : ℤ) → IsCString (show_int z)
unfolding show_int show_nat
IsCString-show_int (pos n) = IsCString-emit 19 n [] tt
IsCString-show_int (negsuc n) = (λ e. omega (arith, e), IsCString-emit 19 (suc n) [] tt)
