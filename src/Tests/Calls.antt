-- ===== src/Tests/Calls.antt =====
-- The theorems on the operations of fs/operations.c, at the example.
use t_cnico_file_system_pt.Prelude.{
  ℕ, ◌≡◌, refl, ◌∙◌, sym, arith, pos, minus_one, List, [], ◌∷◌, min,
}
use t_cnico_file_system_pt.State.Types.{State, done}
use t_cnico_file_system_pt.State.Dir.Laws.{IsFileName}
use t_cnico_file_system_pt.Operations.Open.{tfs_open, tfs_close}
use t_cnico_file_system_pt.Operations.Open.Handle.{path_to}
use t_cnico_file_system_pt.Operations.Open.Create.{Creates, tfs_open-Creates}
use t_cnico_file_system_pt.Operations.Open.Existing.{Reopens, tfs_open-Reopens, tfs_open-missing}
use t_cnico_file_system_pt.Operations.Open.Close.{
  IsClosed, closed_at, tfs_close-closes, closed_handle,
}
use t_cnico_file_system_pt.Tests.Written.{after_write, after_write-eq}
use t_cnico_file_system_pt.Operations.Transfer.{tfs_write, tfs_read}
use t_cnico_file_system_pt.Operations.Transfer.WriteCall.{tfs_write-WriteEnds}
use t_cnico_file_system_pt.Operations.Transfer.WriteCall.Ends.{WriteEnds}
use t_cnico_file_system_pt.Operations.Transfer.Read.{ReadEnds, tfs_read-ReadEnds}
use t_cnico_file_system_pt.Operations.Transfer.RoundTrip.{ReturnsBytes, tfs_read-tfs_write}
use t_cnico_file_system_pt.Operations.Unlink.{tfs_unlink}
use t_cnico_file_system_pt.Operations.Unlink.Effect.{
  Unlinked, tfs_unlink-removes, tfs_unlink-missing,
}
use t_cnico_file_system_pt.Invariant.Defs.{IsSound}
use t_cnico_file_system_pt.Tests.Example.{
  example, example_file, example_handle, example-IsSound, example-IsHandle, example-IsHandle_second,
  example-listed, example-unlisted,
}

b-IsFileName : IsFileName (98 ∷ [])
b-IsFileName = record {
  bytes = (λ e. omega arith, tt);
  nonempty = λ e. ground (arith, e);
  fits = omega arith;
}

tfs_open-Creates_example : Creates 0 example (98 ∷ []) (tfs_open (path_to 98 []) 1 example)
tfs_open-Creates_example =
    tfs_open-Creates 98 [] 1 example-IsSound refl b-IsFileName example-unlisted refl

tfs_unlink-removes_example :
    (s' : State) × (tfs_unlink (path_to 97 []) example ≡ done (pos 0, s'))
    × Unlinked 0 example (97 ∷ []) s'
tfs_unlink-removes_example =
    tfs_unlink-removes 97 [] example-IsSound refl (λ e. omega arith, tt)
      (λ e. ground (arith, sym example-listed ∙ e))

tfs_unlink-missing_example : tfs_unlink (path_to 98 []) example ≡ done (minus_one, example)
tfs_unlink-missing_example = tfs_unlink-missing 98 [] example-IsSound refl example-unlisted

tfs_write-WriteEnds_example :
    WriteEnds 0 example 0 example_handle 1 example_file
      (4 ∷ 5 ∷ [])
      (min 2 89)
      (tfs_write (pos 0) (4 ∷ 5 ∷ []) 2 example)
tfs_write-WriteEnds_example =
    tfs_write-WriteEnds example-IsSound refl example-IsHandle (4 ∷ 5 ∷ []) 2 (omega arith)
      (omega arith)

tfs_read-ReadEnds_example :
    ReadEnds 0 example 0 example_handle example_file (min 9 2) (tfs_read (pos 0) 9 example)
tfs_read-ReadEnds_example = tfs_read-ReadEnds example-IsSound refl example-IsHandle (omega arith) 9

tfs_open-Reopens_example : Reopens 0 example 1 2 (tfs_open (path_to 97 []) 2 example)
tfs_open-Reopens_example = tfs_open-Reopens 97 [] 2 1 example-IsSound refl example-listed

tfs_open-missing_example : tfs_open (path_to 98 []) 0 example ≡ done (minus_one, example)
tfs_open-missing_example = tfs_open-missing 98 [] 0 example-IsSound refl example-unlisted refl

tfs_close-closes_example :
    (tfs_close (pos 0) example ≡ done (pos 0, closed_at example 0))
    × IsSound 0 (closed_at example 0)
    × IsClosed (closed_at example 0) (pos 0)
tfs_close-closes_example = tfs_close-closes 0 example-IsSound refl refl

closed_handle_example :
    (tfs_close (pos 2) example ≡ done (minus_one, example))
    × ((buffer : List ℕ) (n : ℕ) → tfs_write (pos 2) buffer n example ≡ done (minus_one, example))
    × ((n : ℕ) → tfs_read (pos 2) n example ≡ done ((minus_one, []), example))
closed_handle_example = closed_handle example-IsSound refl (pos 2) (λ e. ground (arith, e))

tfs_read-tfs_write_example : ReturnsBytes 2 (4 ∷ 5 ∷ []) (tfs_read (pos 1) 2 after_write)
tfs_read-tfs_write_example =
    tfs_read-tfs_write example-IsSound refl example-IsHandle example-IsHandle_second
      (λ e. omega arith) refl (4 ∷ 5 ∷ []) 2 after_write (omega arith) (omega arith) (omega arith)
      (omega arith) after_write-eq
