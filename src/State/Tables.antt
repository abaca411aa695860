-- ===== src/State/Tables.antt =====
-- The allocation tables, the data blocks and the open file table of fs/state.c. The delays of
-- `insert_delay` change nothing and are left out, but for the division that decides on them.
pub mod FirstFree
use t_cnico_file_system_pt.Prelude.{
  ℕ, zero, suc, ℤ, pos, negsuc, minus_one, to_int, mul_size, List, Bool, true, false, ltb, ◌==◌,
  if◌then◌else◌, length, get_elem?, set, Option, none, some, not, ◌&&◌,
}
use t_cnico_file_system_pt.State.Types.{
  State, Fs, Outcome, done, fault, pure, ◌>>=◌, ◌>>◌, always_assert, gets, commit, AllocationState,
  free, taken,
}

unfoldable pub valid_inumber : State → ℤ → Bool
valid_inumber s (pos n) = ltb n s.max_inode_count
valid_inumber s (negsuc n) = false

unfoldable pub valid_block_number : State → ℤ → Bool
valid_block_number s (pos n) = ltb n s.max_block_count
valid_block_number s (negsuc n) = false

unfoldable pub valid_file_handle : State → ℤ → Bool
valid_file_handle s (pos n) = ltb n s.max_open_files_count
valid_file_handle s (negsuc n) = false

-- The value of an index; a negative one is past every table.
abbrev pub index_of : ℤ → Option ℕ
index_of (pos n) = some n
index_of (negsuc n) = none

abbrev pub load_from {ℓ} : {A : Type ℓ} → (State → List A) → ℤ → Fs A
load_from t z s = elim (index_of z) [
  | none ↦ fault
  | some i ↦ elim (get_elem? (t s) i) [ none ↦ fault | some a ↦ done (a, s) ]
]

-- The table after a write of `t[z] = v`, undefined out of range.
abbrev pub write_at {ℓ} : {A : Type ℓ} → List A → ℤ → A → Outcome (List A)
write_at t z v = elim (index_of z) [
  | none ↦ fault
  | some i ↦ if ltb i (length t) then done (set t i v) else fault
]

-- The loop that the three allocators share: take the first free entry from `i` on, of `rounds`.
unfoldable pub alloc_loop : ℕ → ℕ → List AllocationState → Outcome (Option ℕ × List AllocationState)
alloc_loop zero i t = done (none, t)
alloc_loop (suc rounds) i t = elim (get_elem? t i) [
  | none ↦ fault
  | some a ↦ elim a [ free ↦ done (some i, set t i taken) | taken ↦ alloc_loop rounds (suc i) t ]
]

-- `x % BLOCK_SIZE`, computed in each round of two of the loops, is undefined for 0.
abbrev pub modulo_faults : ℕ → ℕ → Bool
modulo_faults rounds block_size = ltb 0 rounds && (block_size == 0)

-- What a loop over a table returns: the index as an `int`, or -1.
abbrev pub found_index : (ℕ → ℤ) → Option ℕ → ℤ
found_index f none = minus_one
found_index f (some i) = f i

unfoldable pub data_block_alloc : Fs ℤ
data_block_alloc s =
    if modulo_faults s.max_block_count s.block_size
    then fault
    else commit (λ s. alloc_loop s.max_block_count 0 s.free_blocks)
        (λ s r. (found_index to_int r.0, record s { free_blocks = r.1 })) s

unfoldable pub data_block_free : ℤ → Fs (Unit {0})
unfolding valid_block_number
data_block_free block_number = do
  s ← gets λ s. s
  always_assert (valid_block_number s block_number)
  commit (λ s. write_at s.free_blocks block_number free) (λ s t. (tt, record s { free_blocks = t }))

-- The pointer is the offset in `fs_data`.
unfoldable pub data_block_get : ℤ → Fs ℕ
unfolding valid_block_number
data_block_get block_number = do
  s ← gets λ s. s
  always_assert (valid_block_number s block_number)
  λ s. elim (index_of block_number) [ none ↦ fault | some b ↦ done (mul_size b s.block_size, s) ]

-- The writes of a round that finds the free entry `i`.
unfoldable pub fill_open_file_entry : ℤ → ℕ → Option ℕ → Fs ℤ
fill_open_file_entry inumber offset none = pure minus_one
fill_open_file_entry inumber offset (some i) =
    commit
      (λ s.
        write_at s.open_file_table (pos i) (record { of_inumber = inumber; of_offset = offset }))
      (λ s t. (pos i, record s { open_file_table = t }))

unfoldable pub add_to_open_file_table : ℤ → ℕ → Fs ℤ
unfolding fill_open_file_entry
add_to_open_file_table inumber offset = do
  r ←
      commit (λ s. alloc_loop s.max_open_files_count 0 s.free_open_file_entries)
        (λ s r. (r.0, record s { free_open_file_entries = r.1 }))
  fill_open_file_entry inumber offset r

abbrev pub is_taken : AllocationState → Bool
is_taken free = false
is_taken taken = true

unfoldable pub remove_from_open_file_table : ℤ → Fs (Unit {0})
unfolding valid_file_handle
remove_from_open_file_table fhandle = do
  s ← gets λ s. s
  always_assert (valid_file_handle s fhandle)
  a ← load_from (λ s. s.free_open_file_entries) fhandle
  always_assert (is_taken a)
  commit (λ s. write_at s.free_open_file_entries fhandle free)
      (λ s t. (tt, record s { free_open_file_entries = t }))

-- `none` is NULL; the pointer is the handle.
unfoldable pub get_open_file_entry : ℤ → Fs (Option ℤ)
unfolding valid_file_handle
get_open_file_entry fhandle = do
  s ← gets λ s. s
  if not (valid_file_handle s fhandle) then pure none else do
    a ← load_from (λ s. s.free_open_file_entries) fhandle
    if not (is_taken a) then pure none else pure (some fhandle)
