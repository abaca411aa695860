-- ===== src/State/Bytes.antt =====
-- Bytes in memory: `memcpy`, the `int` of a directory entry, and C strings. A string is the list of
-- its bytes without the final NUL. The layout is that of x86-64: 4-byte little-endian `int`.
use t_cnico_file_system_pt.Prelude.{
  ℕ, zero, suc, ◌+◌, ◌-◌, ◌*◌, ◌/◌, ◌%◌, ◌<◌, ◌≤◌, ◌≡◌, refl, List, [], ◌∷◌, Bool, true, false,
  ◌&&◌, sym, ◌⊎◌, inl, inr, ◌∙◌, ltb, leb, ◌==◌, if◌then◌else◌, length, get_or, arith, ℤ, bits32,
  of_bits32, ap, int_half, pos, negsuc,
}
use t_cnico_file_system_pt.State.Types.{Outcome, done, fault}
use mathlib.Core.Path.{ap₂}

abbrev pub Memory : Type 0
Memory = ℕ → ℕ

-- The `n` bytes from `off` on.
unfoldable pub peek : Memory → ℕ → ℕ → List ℕ
peek m off zero = []
peek m off (suc n) = m off ∷ peek m (off + 1) n

-- The bytes `bs` are written from `off` on.
unfoldable pub poke : Memory → ℕ → List ℕ → Memory
poke m off bs a = if leb off a && ltb a (off + length bs) then get_or bs (a - off) 0 else m a

-- An `int` in memory.
unfoldable pub int_bytes : ℤ → List ℕ
int_bytes z =
    bits32 z % 256 ∷ bits32 z / 256 % 256 ∷ bits32 z / 65536 % 256 ∷ bits32 z / 16777216 % 256 ∷ []

unfoldable pub int_of_bytes : List ℕ → ℤ
int_of_bytes bs =
    of_bits32
      (get_or bs 0 0 + 256 * get_or bs 1 0 + 65536 * get_or bs 2 0 + 16777216 * get_or bs 3 0)

abbrev pub peek_int : Memory → ℕ → ℤ
peek_int m off = int_of_bytes (peek m off 4)

-- `strncmp(d_name, s, n) == 0`, over the bytes of the array `d_name`.
unfoldable pub strncmp_eq : ℕ → List ℕ → List ℕ → Bool
strncmp_eq zero ds s = true
strncmp_eq (suc n) [] s = true
strncmp_eq (suc n) (d ∷ ds) [] = d == 0
strncmp_eq (suc n) (d ∷ ds) (c ∷ s) = (d == c) && strncmp_eq n ds s

-- `!strcmp(d_name, s)`; a name with no NUL in its array is read past the array's end.
unfoldable pub strcmp_eq : List ℕ → List ℕ → Outcome Bool
strcmp_eq [] s = fault
strcmp_eq (d ∷ ds) [] = done (d == 0)
strcmp_eq (d ∷ ds) (c ∷ s) = let rest = strcmp_eq ds s in if d == c then rest else done false

-- `strncpy(d_name, s, MAX_FILE_NAME - 1)` and the NUL after it: the bytes of `s`, padded by NULs.
unfoldable pub padded : ℕ → List ℕ → List ℕ
padded zero s = []
padded (suc n) [] = 0 ∷ padded n []
padded (suc n) (c ∷ s) = c ∷ padded n s

pub peek-cong :
    (m m' : Memory) (off n : ℕ)
    → ((a : ℕ) → off ≤ a → a < off + n → m a ≡ m' a)
    → peek m off n ≡ peek m' off n
unfolding peek
peek-cong m m' off zero h = refl
peek-cong m m' off (suc n) h =
    ap₂ ◌∷◌ (h off (omega arith) (omega arith))
      (peek-cong m m' (off + 1) n (λ a p q. h a (omega arith) (omega arith)))

pub poke_inside :
    (m : Memory) (off : ℕ) (bs : List ℕ) (a : ℕ)
    → off ≤ a
    → a < off + length bs
    → poke m off bs a ≡ get_or bs (a - off) 0
unfolding poke
poke_inside m off bs a p q = ground arith

pub poke_before : (m : Memory) (off : ℕ) (bs : List ℕ) (a : ℕ) → a < off → poke m off bs a ≡ m a
unfolding poke
poke_before m off bs a p = ground arith

pub poke_after :
    (m : Memory) (off : ℕ) (bs : List ℕ) (a : ℕ) → off + length bs ≤ a → poke m off bs a ≡ m a
unfolding poke
poke_after m off bs a p = ground arith

peek-eq :
    (m : Memory) (off : ℕ) (bs : List ℕ)
    → ((i : ℕ) → i < length bs → m (off + i) ≡ get_or bs i 0)
    → peek m off (length bs) ≡ bs
unfolding peek
peek-eq m off [] h = refl
peek-eq m off (b ∷ bs) h =
    ap₂ ◌∷◌ (ap m (omega arith) ∙ h 0 (omega arith))
      (peek-eq m (off + 1) bs λ i p. ap m (omega arith) ∙ h (suc i) (omega arith))

-- What was written is read back.
pub peek-poke :
    (m : Memory) (off : ℕ) (bs : List ℕ) (n : ℕ) → length bs ≡ n → peek (poke m off bs) off n ≡ bs
peek-poke m off bs n e =
    ap (peek (poke m off bs) off) (sym e)
    ∙ peek-eq (poke m off bs) off bs λ i p.
      poke_inside m off bs (off + i) (omega arith) (omega arith)
      ∙ ap (λ k. get_or bs k 0) (omega arith)

-- A write leaves the bytes before and behind it.
pub peek-poke_disjoint :
    (m : Memory) (off : ℕ) (bs : List ℕ) (o n : ℕ)
    → (o + n ≤ off) ⊎ (off + length bs ≤ o)
    → peek (poke m off bs) o n ≡ peek m o n
peek-poke_disjoint m off bs o n (inl d) =
    peek-cong (poke m off bs) m o n (λ a p q. poke_before m off bs a (omega arith))
peek-poke_disjoint m off bs o n (inr d) =
    peek-cong (poke m off bs) m o n (λ a p q. poke_after m off bs a (omega arith))

-- An `int` is one of 32 bits.
abbrev pub IsInt : ℤ → Type 0
IsInt (pos n) = n < int_half
IsInt (negsuc n) = n < int_half

-- The four bytes of a number that fits `int` are read back as that number.
int_of_bytes-int_bytes : (z : ℤ) → IsInt z → int_of_bytes (int_bytes z) ≡ z
unfolding int_of_bytes int_bytes
int_of_bytes-int_bytes (pos n) h = ground arith
int_of_bytes-int_bytes (negsuc n) h = ground arith

pub peek_int-poke :
    (m : Memory) (off : ℕ) (z : ℤ) → IsInt z → peek_int (poke m off (int_bytes z)) off ≡ z
unfolding int_bytes
peek_int-poke m off z h =
    ap int_of_bytes (peek-poke m off (int_bytes z) 4 refl) ∙ int_of_bytes-int_bytes z h
