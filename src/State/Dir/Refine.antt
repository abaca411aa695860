-- ===== src/State/Dir/Refine.antt =====
-- The loops of fs/state.c over the bytes of a directory do what `Listing` says.
use t_cnico_file_system_pt.Prelude.{
  ℕ, zero, suc, ◌+◌, ◌*◌, ◌≤◌, ℤ, pos, minus_one, List, [], ◌∷◌, false, if◌then◌else◌, ◌≡◌, ◌≢◌,
  ◌⊎◌, inl, inr, refl, ap, ◌∙◌, arith, length, Bool-cases, get_or,
}
use mathlib.Core.Path.{ap₂}
use t_cnico_file_system_pt.State.Types.{DirEntry, dir_entry_size, done}
use t_cnico_file_system_pt.State.Bytes.{
  Memory, peek, poke, int_bytes, int_of_bytes, strncmp_eq, strcmp_eq, peek-poke, peek-poke_disjoint,
  peek_int-poke, IsInt,
}
use t_cnico_file_system_pt.State.Dir.{
  peek_entry, erase_entry, fill_entry, clear_loop, add_loop, find_loop,
}
use t_cnico_file_system_pt.State.Dir.Listing.{
  is_live, matches, lookup, insert, remove, has_room, IsCString, IsTerminated, IsUsed, IsTidy,
  lookup-AllFree, length-filled_name,
}

-- The entries that `n` rounds read from `off` on.
unfoldable pub entries : Memory → ℕ → ℕ → List DirEntry
entries m off zero = []
entries m off (suc n) = peek_entry m off ∷ entries m (off + dir_entry_size) n

-- The loop of `find_in_dir` over `n` entries that lie inside the data returns the inumber of the
-- first entry in use of that name in the list of these entries, or -1 if there is none.
pub find_loop-lookup :
    (n size off : ℕ) (m : Memory) (name : List ℕ)
    → off + n * dir_entry_size ≤ size
    → find_loop n size off m name ≡ done (lookup (entries m off n) name)
unfolding find_loop entries lookup
find_loop-lookup zero size off m name h = refl
find_loop-lookup (suc n) size off m name h =
    ground (arith, find_loop-lookup n size (off + dir_entry_size) m name)

abbrev entry_of : List ℕ → ℤ → DirEntry
entry_of ds z = record { d_name = ds; d_inumber = z }

peek_entry-poke :
    (m : Memory) (o : ℕ) (bs : List ℕ) (off : ℕ)
    → (off + dir_entry_size ≤ o) ⊎ (o + length bs ≤ off)
    → peek_entry (poke m o bs) off ≡ peek_entry m off
unfolding peek_entry
peek_entry-poke m o bs off d =
    ap₂ entry_of (peek-poke_disjoint m o bs off 40 (omega arith))
      (ap int_of_bytes (peek-poke_disjoint m o bs (off + 40) 4 (omega arith)))

-- Entries that a write does not touch.
pub entries-poke :
    (m : Memory) (o : ℕ) (bs : List ℕ) (off n : ℕ)
    → (off + n * dir_entry_size ≤ o) ⊎ (o + length bs ≤ off)
    → entries (poke m o bs) off n ≡ entries m off n
unfolding entries
entries-poke m o bs off zero d = refl
entries-poke m o bs off (suc n) d =
    ap₂ ◌∷◌ (peek_entry-poke m o bs off (omega arith))
      (entries-poke m o bs (off + dir_entry_size) n (omega arith))

-- The two writes to one entry: the number first, then the name.
write_both :
    (m : Memory) (off : ℕ) (ds : List ℕ) (z : ℤ)
    → IsInt z
    → length ds ≡ 40
    → peek_entry (poke (poke m (off + 40) (int_bytes z)) off ds) off ≡ entry_of ds z
unfolding peek_entry
write_both m off ds z h e = ap₂ entry_of (peek-poke (poke m (off + 40) (int_bytes z)) off ds 40 e) (
    ap int_of_bytes
      (peek-poke_disjoint (poke m (off + 40) (int_bytes z)) off ds (off + 40) 4 (inr (omega arith)))
    ∙ peek_int-poke m (off + 40) z h)

entries-write_both :
    (m : Memory) (off : ℕ) (ds : List ℕ) (z : ℤ) (n : ℕ)
    → length ds ≡ 40
    → entries (poke (poke m (off + 40) (int_bytes z)) off ds) (off + 44) n ≡ entries m (off + 44) n
unfolding int_bytes
entries-write_both m off ds z n e =
    entries-poke (poke m (off + 40) (int_bytes z)) off ds (off + 44) n (inr (omega arith))
    ∙ entries-poke m (off + 40) (int_bytes z) (off + 44) n (inr (omega arith))

-- The bytes outside the `n` entries from `off` on are the same.
abbrev pub SameOutside : ℕ → ℕ → Memory → Memory → Type 0
SameOutside off n m m' =
    (o k : ℕ) → (o + k ≤ off) ⊎ (off + n * dir_entry_size ≤ o) → peek m' o k ≡ peek m o k

peek_entry-same :
    (m m' : Memory) (off n : ℕ)
    → SameOutside (off + dir_entry_size) n m m'
    → peek_entry m' off ≡ peek_entry m off
unfolding peek_entry
peek_entry-same m m' off n h =
    ap₂ entry_of (h off 40 (inl (omega arith)))
      (ap int_of_bytes (h (off + 40) 4 (inl (omega arith))))

write_both-SameOutside :
    (m : Memory) (off : ℕ) (ds : List ℕ) (z : ℤ) (n : ℕ)
    → length ds ≡ 40
    → SameOutside off (suc n) m (poke (poke m (off + 40) (int_bytes z)) off ds)
unfolding int_bytes
write_both-SameOutside m off ds z n e o k d =
    peek-poke_disjoint (poke m (off + 40) (int_bytes z)) off ds o k (omega arith)
    ∙ peek-poke_disjoint m (off + 40) (int_bytes z) o k (omega arith)

-- What a loop over the entries returns and leaves, by the list that they become.
pub record Becomes (m : Memory) (off n : ℕ) (es : List DirEntry) (m' : Memory) : Type 0 where
  pub listed : entries m' off n ≡ es
  pub same : SameOutside off n m m'

Becomes-cons :
    (m m' : Memory) (off n : ℕ) (es : List DirEntry)
    → Becomes m (off + dir_entry_size) n es m'
    → Becomes m off (suc n) (peek_entry m off ∷ es) m'
unfolding entries
Becomes-cons m m' off n es b = record {
  listed = ap₂ ◌∷◌ (peek_entry-same m m' off n b.same) b.listed;
  same = λ o k d. b.same o k (omega arith);
}

write_both-Becomes :
    (m : Memory) (off : ℕ) (ds : List ℕ) (z : ℤ) (n : ℕ)
    → IsInt z
    → length ds ≡ 40
    → Becomes m off
        (suc n)
        (entry_of ds z ∷ entries m (off + dir_entry_size) n)
        (poke (poke m (off + 40) (int_bytes z)) off ds)
unfolding entries
write_both-Becomes m off ds z n h e = record {
  listed = ap₂ ◌∷◌ (write_both m off ds z h e) (entries-write_both m off ds z n e);
  same = write_both-SameOutside m off ds z n e;
}

abbrev pub Added : Memory → ℕ → ℕ → List ℕ → ℤ → ℤ × Memory → Type 0
Added m off n name z (r, m') =
    (r ≡ (if has_room (entries m off n) then pos 0 else minus_one))
    × Becomes m off n (insert (entries m off n) name z) m'

-- The loop of `add_dir_entry` over `n` entries that lie inside the data, for an inumber that fits
-- `int`, returns 0 if one of them is free and -1 otherwise. The list of the entries becomes the one
-- with the first free entry filled, and the bytes outside them stay as they were.
pub add_loop-insert :
    (n size off : ℕ) (m : Memory) (name : List ℕ) (z : ℤ)
    → off + n * dir_entry_size ≤ size
    → IsInt z
    → (r : ℤ × Memory) × (add_loop n size off m name z ≡ done r) × Added m off n name z r
unfolding add_loop entries insert has_room fill_entry
add_loop-insert zero size off m name z h b =
    ((minus_one, m), refl, (refl, record { listed = refl; same = λ o k d. refl }))
add_loop-insert (suc n) size off m name z h b = elim (Bool-cases (is_live (peek_entry m off))) [
  | inl e ↦
      let (r, eq, (code, becomes)) = add_loop-insert n size (off + 44) m name z (omega arith) b in
      (r, ground arith, (rw e code, rw e (Becomes-cons m r.1 off n _ becomes)))
  | inr e ↦ (
    (pos 0, fill_entry m off name z),
    ground arith,
    (rw e refl, rw e (write_both-Becomes m off _ z n b (length-filled_name name))),
  )
]

strcmp_eq-strncmp_eq :
    (ds s : List ℕ) (n : ℕ)
    → IsTerminated ds
    → IsCString s
    → length ds ≤ n
    → strcmp_eq ds s ≡ done (strncmp_eq n ds s)
unfolding strcmp_eq strncmp_eq
strcmp_eq-strncmp_eq [] s n t c h = elim t [ ]
strcmp_eq-strncmp_eq (d ∷ ds) s zero t c h = absurd (omega arith)
strcmp_eq-strncmp_eq (d ∷ ds) [] (suc n) t c h = refl
strcmp_eq-strncmp_eq (d ∷ ds) (x ∷ s) (suc n) (inl z) c h = ground arith
strcmp_eq-strncmp_eq (d ∷ ds) (x ∷ s) (suc n) (inr t) c h =
    ground (arith, strcmp_eq-strncmp_eq ds s n t c.1)

-- A free entry that was written matches no name.
strncmp_eq-unnamed :
    (ds : List ℕ) (c : ℕ) (s : List ℕ)
    → c ≢ 0
    → length ds ≡ 40
    → get_or ds 0 1 ≡ 0
    → strncmp_eq 40 ds (c ∷ s) ≡ false
unfolding strncmp_eq
strncmp_eq-unnamed [] c s h l z = absurd (omega arith)
strncmp_eq-unnamed (d ∷ ds) c s h l z = ground arith

abbrev pub Removed : Memory → ℕ → ℕ → List ℕ → ℤ × Memory → Type 0
Removed m off n name (r, m') = (r ≡ pos 0) × Becomes m off n (remove (entries m off n) name) m'

strcmp_eq-matches :
    (e : DirEntry) (c : ℕ) (s : List ℕ)
    → IsUsed e
    → IsCString (c ∷ s)
    → strcmp_eq e.d_name (c ∷ s) ≡ done (matches e (c ∷ s))
strcmp_eq-matches e c s u v = elim (Bool-cases (is_live e)) [
  | inl l ↦ rw l (strcmp_eq-strncmp_eq e.d_name (c ∷ s) 40 u.terminated v (omega (arith, u.sized)))
  | inr f ↦
      strcmp_eq-strncmp_eq e.d_name (c ∷ s) 40 u.terminated v (omega (arith, u.sized))
      ∙ ap done (strncmp_eq-unnamed e.d_name c s v.0 u.sized (u.unnamed f) ∙ rw f refl)
]

-- The loop of `clear_dir_entry` over `n` entries that lie inside the data, of which the written
-- ones hold strings, returns 0 for a nonempty string under which one of them is in use. The list
-- of the entries becomes the one with the first such entry erased, and the bytes outside them stay
-- as they were.
pub clear_loop-remove :
    (n size off : ℕ) (m : Memory) (c : ℕ) (s : List ℕ)
    → off + n * dir_entry_size ≤ size
    → IsTidy (entries m off n)
    → IsCString (c ∷ s)
    → lookup (entries m off n) (c ∷ s) ≢ minus_one
    → (r : ℤ × Memory) × (clear_loop n size off m (c ∷ s) ≡ done r) × Removed m off n (c ∷ s) r
unfolding clear_loop entries remove lookup erase_entry
clear_loop-remove zero size off m c s h t v found = absurd (found refl)
clear_loop-remove (suc n) size off m c s h (inr f) v found =
    absurd (found (lookup-AllFree (peek_entry m off ∷ entries m (off + 44) n) (c ∷ s) f))
clear_loop-remove (suc n) size off m c s h (inl (u, t)) v found =
    let same = strcmp_eq-matches (peek_entry m off) c s u v in
    elim (Bool-cases (matches (peek_entry m off) (c ∷ s))) [
      | inl e ↦ (
        (pos 0, erase_entry m off),
        ground arith,
        (refl, rw e (write_both-Becomes m off _ minus_one n (omega arith) refl)),
      )
      | inr e ↦
          let (r, eq, (code, becomes)) =
            clear_loop-remove n size (off + 44) m c s (omega arith) t v (rw e at found) in
          (r, ground arith, (code, rw e (Becomes-cons m r.1 off n _ becomes)))
    ]
