-- ===== src/State/Tables/FirstFree.antt =====
-- The allocation loops of fs/state.c take the first free entry of a table.
use mathlib.Core.Path.{subst}
use t_cnico_file_system_pt.Prelude.{
  ℕ, zero, suc, ◌+◌, ◌≤◌, ◌<◌, ◌≡◌, refl, ap, ◌∙◌, inl, inr, List, Option, none, some, length,
  get_elem?, get_elem?-lt, set, arith, ltb, Bool-cases,
}
use t_cnico_file_system_pt.State.Types.{done, AllocationState, free, taken}
use t_cnico_file_system_pt.State.Tables.{alloc_loop}

-- `r` is the first free entry of `t` from `i` on, if there is one, and `t'` has it taken.
abbrev pub TakesFirst : List AllocationState → ℕ → Option ℕ × List AllocationState → Type 0
TakesFirst t i (none, t') = ((j : ℕ) → i ≤ j → j < length t → get_elem? t j ≡ some taken) × (t' ≡ t)
TakesFirst t i (some k, t') =
    (i ≤ k)
    × (k < length t)
    × (get_elem? t k ≡ some free)
    × ((j : ℕ) → i ≤ j → j < k → get_elem? t j ≡ some taken)
    × (t' ≡ set t k taken)

taken_from :
    (t : List AllocationState) (i n : ℕ)
    → get_elem? t i ≡ some taken
    → ((j : ℕ) → suc i ≤ j → j < n → get_elem? t j ≡ some taken)
    → (j : ℕ) → i ≤ j
    → j < n
    → get_elem? t j ≡ some taken
taken_from t i n e later j h l = elim (Bool-cases (ltb i j)) [
  | inl p ↦ later j (ground arith) l
  | inr q ↦ ap (get_elem? t) (ground arith) ∙ e
]

TakesFirst-suc :
    (t : List AllocationState) (i : ℕ) (r : Option ℕ × List AllocationState)
    → get_elem? t i ≡ some taken
    → TakesFirst t (suc i) r
    → TakesFirst t i r
TakesFirst-suc t i (none, t') e (all, same) = (taken_from t i (length t) e all, same)
TakesFirst-suc t i (some k, t') e (h, l, f, before, same) =
    (omega arith, l, f, taken_from t i k e before, same)

Allocates : ℕ → ℕ → List AllocationState → Type 0
Allocates rounds i t =
    (r : Option ℕ × List AllocationState) × (alloc_loop rounds i t ≡ done r) × TakesFirst t i r

alloc_step :
    (rounds i : ℕ) (t : List AllocationState) (a : AllocationState)
    → i < length t
    → get_elem? t i ≡ some a
    → Allocates rounds (suc i) t
    → Allocates (suc rounds) i t
unfolding alloc_loop Allocates
alloc_step rounds i t free h e rest = (
  (some i, set t i taken),
  rw (e, alloc_loop) refl,
  (omega arith, h, e, λ j p q. absurd (omega arith), refl),
)
alloc_step rounds i t taken h e (r, eq, first) =
    (r, rw (e, alloc_loop) eq, TakesFirst-suc t i r e first)

alloc_loop-Allocates :
    (rounds i : ℕ) (t : List AllocationState) → i + rounds ≡ length t → Allocates rounds i t
unfolding alloc_loop Allocates
alloc_loop-Allocates zero i t h = ((none, t), refl, (λ j p q. absurd (omega arith), refl))
alloc_loop-Allocates (suc rounds) i t h =
    let (a, e) = get_elem?-lt t i (omega arith) in
    alloc_step rounds i t a (omega arith) e (alloc_loop-Allocates rounds (suc i) t (omega arith))

-- With a round for each entry, the loop of the allocators takes the first free entry of the table
-- and changes no other, or finds every entry taken and changes nothing.
alloc_loop-TakesFirst :
    (t : List AllocationState)
    → (r : Option ℕ × List AllocationState) × (alloc_loop (length t) 0 t ≡ done r)
      × TakesFirst t 0 r
unfolding Allocates
alloc_loop-TakesFirst t = alloc_loop-Allocates (length t) 0 t (omega arith)

-- Every entry below `n` is taken.
abbrev pub AllTaken : ℕ → List AllocationState → Type 0
AllTaken n t = (j : ℕ) → j < n → get_elem? t j ≡ some taken

-- The two ways in which a loop over a table of `n` entries ends.
pub data LoopEnds (n : ℕ) (t : List AllocationState) : Type 0 where
  full : alloc_loop n 0 t ≡ done (none, t) → AllTaken n t → LoopEnds n t
  found :
      (k : ℕ)
      → k < n
      → get_elem? t k ≡ some free
      → AllTaken k t
      → alloc_loop n 0 t ≡ done (some k, set t k taken)
      → LoopEnds n t

loop_ends :
    (t : List AllocationState) (r : Option ℕ × List AllocationState)
    → alloc_loop (length t) 0 t ≡ done r
    → TakesFirst t 0 r
    → LoopEnds (length t) t
loop_ends t (none, t') e (all, same) =
    full (e ∙ ap (λ u. done (none, u)) same) (λ j h. all j (omega arith) h)
loop_ends t (some k, t') e (_, l, f, before, same) =
    found k l f (λ j h. before j (omega arith) h) (e ∙ ap (λ u. done (some k, u)) same)

pub alloc_loop-LoopEnds : (n : ℕ) (t : List AllocationState) → length t ≡ n → LoopEnds n t
alloc_loop-LoopEnds n t h =
    let (r, e, first) = alloc_loop-TakesFirst t in
    subst (λ n. LoopEnds n t) h (loop_ends t r e first)
