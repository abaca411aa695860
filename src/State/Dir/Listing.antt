-- ===== src/State/Dir/Listing.antt =====
-- A directory as the list of its entries: what the functions of fs/state.c do to that list, with
-- no bytes and no offsets.
use t_cnico_file_system_pt.Prelude.{
  ℕ, zero, suc, ◌-◌, ◌++◌, ℤ, minus_one, is_minus_one, List, [], ◌∷◌, Bool, true, false,
  if◌then◌else◌, replicate, not, ◌&&◌, ◌≡◌, ◌≢◌, ◌⊎◌, inl, inr, refl, ap, arith, get_or, length,
  length-append, Bool-cases,
}
use t_cnico_file_system_pt.State.Types.{DirEntry, max_file_name}
use t_cnico_file_system_pt.State.Bytes.{strncmp_eq, padded}

-- An entry in use.
abbrev pub is_live : DirEntry → Bool
is_live e = not (is_minus_one e.d_inumber)

abbrev pub matches : DirEntry → List ℕ → Bool
matches e name = is_live e && strncmp_eq max_file_name e.d_name name

unfoldable pub lookup : List DirEntry → List ℕ → ℤ
lookup [] name = minus_one
lookup (e ∷ es) name = if matches e name then e.d_inumber else lookup es name

abbrev pub filled : List ℕ → ℤ → DirEntry
filled name inumber = record {
  d_name = padded (max_file_name - 1) name ++ (0 ∷ []);
  d_inumber = inumber;
}

abbrev pub erased : DirEntry
erased = record { d_name = replicate max_file_name 0; d_inumber = minus_one }

-- The first free entry is filled.
unfoldable pub insert : List DirEntry → List ℕ → ℤ → List DirEntry
insert [] name inumber = []
insert (e ∷ es) name inumber =
    if is_live e then e ∷ insert es name inumber else filled name inumber ∷ es

-- The first live entry of that name is erased.
unfoldable pub remove : List DirEntry → List ℕ → List DirEntry
remove [] name = []
remove (e ∷ es) name = if matches e name then erased ∷ es else e ∷ remove es name

unfoldable pub has_room : List DirEntry → Bool
has_room [] = false
has_room (e ∷ es) = if is_live e then has_room es else true

-- The bytes of a C string hold no NUL.
abbrev pub IsCString : List ℕ → Type 0
IsCString [] = Unit
IsCString (c ∷ s) = (c ≢ 0) × IsCString s

-- An array of bytes that holds a NUL.
abbrev pub IsTerminated : List ℕ → Type 0
IsTerminated [] = ⊥
IsTerminated (d ∷ ds) = (d ≡ 0) ⊎ IsTerminated ds

-- The name of an entry is empty.
abbrev pub HasNoName : DirEntry → Type 0
HasNoName e = get_or e.d_name 0 1 ≡ 0

-- An entry that a call has written: its name is a string, and is empty where the entry is free.
pub record IsUsed (e : DirEntry) : Type 0 where
  pub terminated : IsTerminated e.d_name
  pub sized : length e.d_name ≡ max_file_name
  pub unnamed : is_live e ≡ false → HasNoName e

abbrev pub AllFree : List DirEntry → Type 0
AllFree [] = Unit
AllFree (e ∷ es) = (is_live e ≡ false) × AllFree es

-- The entries that calls have written come first; those behind them are free, under whatever
-- name the memory held.
abbrev pub IsTidy : List DirEntry → Type 0
IsTidy [] = Unit
IsTidy (e ∷ es) = (IsUsed e × IsTidy es) ⊎ AllFree (e ∷ es)

pub lookup-AllFree : (es : List DirEntry) (name : List ℕ) → AllFree es → lookup es name ≡ minus_one
unfolding lookup
lookup-AllFree [] name f = refl
lookup-AllFree (e ∷ es) name f = ground (arith, lookup-AllFree es name f.1)

pub length-padded : (n : ℕ) (s : List ℕ) → length (padded n s) ≡ n
unfolding padded
length-padded zero s = refl
length-padded (suc n) [] = ap suc (length-padded n [])
length-padded (suc n) (c ∷ s) = ap suc (length-padded n s)

pub length-filled_name : (name : List ℕ) → length (padded 39 name ++ (0 ∷ [])) ≡ 40
length-filled_name name =
    omega (arith, length-append (padded 39 name) (0 ∷ []), length-padded 39 name)

IsTerminated-append : (ds : List ℕ) → IsTerminated (ds ++ (0 ∷ []))
IsTerminated-append [] = inl refl
IsTerminated-append (d ∷ ds) = inr (IsTerminated-append ds)

filled-IsUsed : (name : List ℕ) (z : ℤ) → is_minus_one z ≡ false → IsUsed (filled name z)
filled-IsUsed name z h = record {
  terminated = IsTerminated-append (padded 39 name);
  sized = length-filled_name name;
  unnamed = λ e. ground arith;
}

erased-IsUsed : IsUsed erased
erased-IsUsed = record { terminated = inl refl; sized = refl; unnamed = λ e. refl }

-- Filling the first free entry keeps the directory tidy.
pub insert-IsTidy :
    (es : List DirEntry) (name : List ℕ) (z : ℤ)
    → is_minus_one z ≡ false
    → IsTidy es
    → IsTidy (insert es name z)
unfolding insert
insert-IsTidy [] name z h t = tt
insert-IsTidy (e ∷ es) name z h (inl (u, t)) = elim (Bool-cases (is_live e)) [
  | inl l ↦ rw l (inl (u, insert-IsTidy es name z h t))
  | inr f ↦ rw f (inl (filled-IsUsed name z h, t))
]
insert-IsTidy (e ∷ []) name z h (inr f) = rw (f.0) (inl (filled-IsUsed name z h, tt))
insert-IsTidy (e ∷ d ∷ es) name z h (inr f) = rw (f.0) (inl (filled-IsUsed name z h, inr f.1))

pub remove-AllFree : (es : List DirEntry) (name : List ℕ) → AllFree es → remove es name ≡ es
unfolding remove
remove-AllFree [] name f = refl
remove-AllFree (e ∷ es) name f = ground (arith, remove-AllFree es name f.1)

-- Erasing an entry keeps the directory tidy.
pub remove-IsTidy : (es : List DirEntry) (name : List ℕ) → IsTidy es → IsTidy (remove es name)
unfolding remove
remove-IsTidy [] name t = tt
remove-IsTidy (e ∷ es) name (inl (u, t)) = elim (Bool-cases (matches e name)) [
  | inl m ↦ rw m (inl (erased-IsUsed, t))
  | inr m ↦ rw m (inl (u, remove-IsTidy es name t))
]
remove-IsTidy (e ∷ es) name (inr f) = rw (f.0, remove-AllFree es name f.1) (inr f)
