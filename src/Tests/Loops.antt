-- ===== src/Tests/Loops.antt =====
-- The theorems on the loops of fs/state.c, at the example.
use t_cnico_file_system_pt.Prelude.{
  ℕ, ◌≡◌, ◌≢◌, refl, ◌∙◌, sym, ap, arith, ℤ, pos, minus_one, List, [], ◌∷◌,
}
use mathlib.Core.Path.{subst}
use t_cnico_file_system_pt.State.Types.{done}
use t_cnico_file_system_pt.State.Bytes.{Memory, peek, int_of_bytes}
use t_cnico_file_system_pt.State.Dir.{find_loop, add_loop, clear_loop, fill_entry, peek_entry}
use t_cnico_file_system_pt.State.Dir.Listing.{lookup, IsCString, IsTidy}
use t_cnico_file_system_pt.State.Dir.Refine.{
  entries, find_loop-lookup, Added, add_loop-insert, Removed, clear_loop-remove,
}
use t_cnico_file_system_pt.State.Dir.Loops.{find_loop-add_loop}
use t_cnico_file_system_pt.Tests.Example.{
  example, example-entries, example_entries-IsDirectory, example-listed, example-unlisted,
}

find_loop-lookup_example :
    find_loop 2 270 0 example.fs_data (97 ∷ [])
    ≡ done (lookup (entries example.fs_data 0 2) (97 ∷ []))
find_loop-lookup_example = find_loop-lookup 2 270 0 example.fs_data (97 ∷ []) (omega arith)

add_loop-insert_example :
    (r : ℤ × Memory) × (add_loop 2 270 0 example.fs_data (98 ∷ []) (pos 2) ≡ done r)
    × Added example.fs_data 0 2 (98 ∷ []) (pos 2) r
add_loop-insert_example =
    add_loop-insert 2 270 0 example.fs_data (98 ∷ []) (pos 2) (omega arith) (omega arith)

tidy : IsTidy (entries example.fs_data 0 2)
tidy = subst IsTidy (sym example-entries) example_entries-IsDirectory.tidy

clear_loop-remove_example :
    (r : ℤ × Memory) × (clear_loop 2 270 0 example.fs_data (97 ∷ []) ≡ done r)
    × Removed example.fs_data 0 2 (97 ∷ []) r
clear_loop-remove_example =
    clear_loop-remove 2 270 0 example.fs_data 97 [] (omega arith) tidy (λ e. omega arith, tt)
      (λ e. ground (arith, sym example-listed ∙ e))

absent : find_loop 2 270 0 example.fs_data (98 ∷ []) ≡ done minus_one
absent = find_loop-lookup 2 270 0 example.fs_data (98 ∷ []) (omega arith) ∙ ap done example-unlisted

abbrev with_b : Memory
with_b = fill_entry example.fs_data 44 (98 ∷ []) (pos 2)

added : add_loop 2 270 0 example.fs_data (98 ∷ []) (pos 2) ≡ done (pos 0, with_b)
unfolding add_loop peek_entry peek int_of_bytes
added = refl

find_loop-add_loop_example :
    (find_loop 2 270 0 with_b (98 ∷ []) ≡ done (pos 2))
    × ((t : List ℕ)
        → IsCString t
        → (98 ∷ []) ≢ t
        → find_loop 2 270 0 with_b t ≡ find_loop 2 270 0 example.fs_data t)
find_loop-add_loop_example =
    find_loop-add_loop 2 270 0 example.fs_data with_b (98 ∷ []) (pos 2) (omega arith) (omega arith)
      refl
      (record {
        bytes = (λ e. omega arith, tt);
        nonempty = λ e. ground (arith, e);
        fits = omega arith;
      })
      absent added
