-- ===== src/Invariant/Root.antt =====
-- The directory functions of fs/state.c at the root directory, and `tfs_lookup`.
use t_cnico_file_system_pt.Prelude.{
  ℕ, ◌+◌, ◌*◌, ◌≤◌, ◌<◌, ◌≡◌, ◌≢◌, refl, arith, ℤ, pos, minus_one, List, [], ◌∷◌, length, mul_size,
  if◌then◌else◌,
}
use t_cnico_file_system_pt.State.Types.{State, done, dir_entry_size, DirEntry}
use t_cnico_file_system_pt.State.Bytes.{Memory, IsInt}
use t_cnico_file_system_pt.State.Inodes.{max_dir_entries}
use t_cnico_file_system_pt.State.Dir.{find_in_dir, add_dir_entry, clear_dir_entry}
use t_cnico_file_system_pt.State.Dir.Listing.{IsTidy, IsCString, lookup, insert, remove, has_room}
use t_cnico_file_system_pt.State.Dir.Laws.{IsFileName}
use t_cnico_file_system_pt.State.Dir.Refine.{
  SameOutside, find_loop-lookup, add_loop-insert, clear_loop-remove,
}
use t_cnico_file_system_pt.Invariant.Defs.{HasShape, root_inode, root_entries, root_offset}
use t_cnico_file_system_pt.Invariant.Calls.{data_block_get-eq}

pub mul-bound : (k m n : ℕ) → k < m → k * n + n ≤ m * n
mul-bound k m n h = grind arith

-- The offset of a block in range does not wrap, and its bytes are in `fs_data`.
pub block_in_data :
    {s : State}
    → HasShape s
    → (b : ℕ) → b < s.max_block_count
    → (mul_size b s.block_size ≡ b * s.block_size)
      × (b * s.block_size + s.block_size ≤ s.fs_data_size)
block_in_data {s} shape b h = omega (arith, mul-bound b s.max_block_count s.block_size h)

-- The root's entries become `es`, and the bytes outside its block stay the same.
pub record Rewrites (rb : ℕ) (s : State) (es : List DirEntry) (m : Memory) : Type 0 where
  pub becomes : root_entries rb (record s { fs_data = m }) ≡ es
  pub outside : SameOutside (root_offset rb s) (max_dir_entries s) s.fs_data m

length_pos : (name : List ℕ) → length name ≡ 0 → name ≡ []
length_pos [] h = refl
length_pos (c ∷ name) h = absurd (omega arith)

module _ {rb : ℕ} {s : State} (shape : HasShape s) (inside : rb < s.max_block_count) where
  entries_in_data : root_offset rb s + max_dir_entries s * dir_entry_size ≤ s.fs_data_size
  entries_in_data = omega (arith, block_in_data shape rb inside)

  pub find_in_dir-root :
      (name : List ℕ)
      → find_in_dir (root_inode rb s.params) name s ≡ done (lookup (root_entries rb s) name, s)
  unfolding find_in_dir
  find_in_dir-root name = ground (
    arith,
    data_block_get-eq shape rb inside,
    find_loop-lookup (max_dir_entries s) s.fs_data_size (root_offset rb s) s.fs_data name
        entries_in_data,
  )

  pub add_dir_entry-root :
      (name : List ℕ) (z : ℤ)
      → IsFileName name
      → IsInt z
      → (m : Memory) × (add_dir_entry (root_inode rb s.params) name z s
          ≡ done
              (if has_room (root_entries rb s) then pos 0 else minus_one, record s { fs_data = m }))
        × Rewrites rb s (insert (root_entries rb s) name z) m
  unfolding add_dir_entry
  add_dir_entry-root name z f i =
      let (r, e, (code, b)) =
        add_loop-insert (max_dir_entries s) s.fs_data_size (root_offset rb s) s.fs_data name z
          entries_in_data i in
      (
        r.1,
        ground (arith, data_block_get-eq shape rb inside, f.nonempty, length_pos name),
        record { becomes = b.listed; outside = b.same },
      )

  pub clear_dir_entry-root :
      (c : ℕ) (name : List ℕ)
      → IsTidy (root_entries rb s)
      → IsCString (c ∷ name)
      → lookup (root_entries rb s) (c ∷ name) ≢ minus_one
      → (m : Memory) × (clear_dir_entry (root_inode rb s.params) (c ∷ name) s
          ≡ done (pos 0, record s { fs_data = m }))
        × Rewrites rb s (remove (root_entries rb s) (c ∷ name)) m
  unfolding clear_dir_entry
  clear_dir_entry-root c name t v found =
      let (r, e, (code, b)) =
        clear_loop-remove (max_dir_entries s) s.fs_data_size (root_offset rb s) s.fs_data c name
          entries_in_data t v found in
      (
        r.1,
        ground (arith, data_block_get-eq shape rb inside),
        record { becomes = b.listed; outside = b.same },
      )
