-- ===== src/State/Dir/Loops.antt =====
-- What `find_in_dir` finds after `add_dir_entry` and after `clear_dir_entry`, by their loops.
use t_cnico_file_system_pt.Prelude.{
  ℕ, ◌+◌, ◌*◌, ◌≤◌, ℤ, pos, minus_one, is_minus_one, List, ◌∷◌, Bool, true, false, ◌≡◌, ◌≢◌, refl,
  sym, ap, ◌∙◌, arith, if◌then◌else◌,
}
use t_cnico_file_system_pt.State.Types.{Outcome, done, dir_entry_size}
use t_cnico_file_system_pt.State.Bytes.{Memory, IsInt}
use t_cnico_file_system_pt.State.Dir.{add_loop, find_loop, clear_loop}
use t_cnico_file_system_pt.State.Dir.Listing.{lookup, insert, has_room, IsCString, IsTidy}
use t_cnico_file_system_pt.State.Dir.Laws.{
  IsFileName, IsDistinct, lookup-insert_self, lookup-insert_ne, lookup-remove_self,
  lookup-remove_ne,
}
use t_cnico_file_system_pt.State.Dir.Refine.{
  entries, find_loop-lookup, add_loop-insert, clear_loop-remove,
}

result_of : Outcome (ℤ × Memory) → ℤ
result_of (done (r, m)) = r
result_of o = minus_one

memory_of : Memory → Outcome (ℤ × Memory) → Memory
memory_of d (done (r, m)) = m
memory_of d o = d

value_of : Outcome ℤ → ℤ
value_of (done r) = r
value_of o = pos 0

-- Over `n` entries that lie inside the data, let no entry in use have a file name. If the loop of
-- `add_dir_entry` then returns 0 for that name and an inumber other than -1, the loop of
-- `find_in_dir` finds the name under that inumber, and every other string as before.
pub find_loop-add_loop :
    (n size off : ℕ) (m m' : Memory) (s : List ℕ) (z : ℤ)
    → off + n * dir_entry_size ≤ size
    → IsInt z
    → is_minus_one z ≡ false
    → IsFileName s
    → find_loop n size off m s ≡ done minus_one
    → add_loop n size off m s z ≡ done (pos 0, m')
    → (find_loop n size off m' s ≡ done z)
      × ((t : List ℕ) → IsCString t → s ≢ t → find_loop n size off m' t ≡ find_loop n size off m t)
unfolding value_of result_of memory_of
find_loop-add_loop n size off m m' s z inside int nz f absent added =
    let (r, e, (code, becomes)) = add_loop-insert n size off m s z inside int in
    let listed : entries m' off n ≡ insert (entries m off n) s z =
      ap (λ o. entries (memory_of m o) off n) (sym added ∙ e) ∙ becomes.listed in
    let new : lookup (entries m off n) s ≡ minus_one =
      ap value_of (sym (find_loop-lookup n size off m s inside) ∙ absent) in
    let room : has_room (entries m off n) ≡ true =
      has_room-success (has_room (entries m off n)) (ap result_of (sym added ∙ e) ∙ code) in
    (
      find_loop-lookup n size off m' s inside
          ∙ ap done (
              ap (λ es. lookup es s) listed
              ∙ lookup-insert_self (entries m off n) s z f nz room new),
      λ t v ne.
          find_loop-lookup n size off m' t inside
          ∙ ap done
              (ap (λ es. lookup es t) listed ∙ lookup-insert_ne (entries m off n) s t z f v ne)
          ∙ sym (find_loop-lookup n size off m t inside),
    )
  where
    has_room-success : (b : Bool) → pos 0 ≡ (if b then pos 0 else minus_one) → b ≡ true
    has_room-success true e = refl
    has_room-success false e = absurd (ground (arith, e))

-- Over `n` entries that lie inside the data, of which the written ones hold strings and no two
-- entries in use one name, let the loop of `find_in_dir` find a nonempty string. The loop of
-- `clear_dir_entry` then returns 0; after it the string is not found, and every other one is found
-- as before.
find_loop-clear_loop :
    (n size off : ℕ) (m : Memory) (c : ℕ) (s : List ℕ)
    → off + n * dir_entry_size ≤ size
    → IsTidy (entries m off n)
    → IsDistinct (entries m off n)
    → IsCString (c ∷ s)
    → find_loop n size off m (c ∷ s) ≢ done minus_one
    → (m' : Memory) × (clear_loop n size off m (c ∷ s) ≡ done (pos 0, m'))
      × (find_loop n size off m' (c ∷ s) ≡ done minus_one)
      × ((t : List ℕ)
          → IsCString t
          → (c ∷ s) ≢ t
          → find_loop n size off m' t ≡ find_loop n size off m t)
find_loop-clear_loop n size off m c s inside tidy distinct v found =
    let (r, e, (code, becomes)) =
      clear_loop-remove n size off m c s inside tidy v
        (λ l. found (find_loop-lookup n size off m (c ∷ s) inside ∙ ap done l)) in
    (
      r.1,
      e ∙ ap (λ z. done (z, r.1)) code,
      find_loop-lookup n size off r.1 (c ∷ s) inside
          ∙ ap done (
              ap (λ es. lookup es (c ∷ s)) becomes.listed
              ∙ lookup-remove_self (entries m off n) (c ∷ s) distinct v),
      λ t w ne.
          find_loop-lookup n size off r.1 t inside
          ∙ ap done (
              ap (λ es. lookup es t) becomes.listed
              ∙ lookup-remove_ne (entries m off n) (c ∷ s) t tidy v w ne)
          ∙ sym (find_loop-lookup n size off m t inside),
    )
