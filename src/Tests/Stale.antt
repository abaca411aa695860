-- ===== src/Tests/Stale.antt =====
-- The theorem on stale handles of fs/operations.c, at the example with a handle past the file's end.
use t_cnico_file_system_pt.Prelude.{◌≡◌, refl, arith, pos, set}
use t_cnico_file_system_pt.State.Types.{State, OpenFileEntry, done}
use t_cnico_file_system_pt.State.Bytes.{peek}
use t_cnico_file_system_pt.Invariant.Defs.{IsSound}
use t_cnico_file_system_pt.Invariant.Changes.{set_open_file}
use t_cnico_file_system_pt.Operations.Transfer.{tfs_read}
use t_cnico_file_system_pt.Operations.Transfer.Read.{moved_on}
use t_cnico_file_system_pt.Operations.Transfer.Read.Stale.{tfs_read-past_end}
use t_cnico_file_system_pt.Operations.Transfer.WriteCall.Ends.{IsHandle}
use t_cnico_file_system_pt.Tests.Example.{example, example_file, example-IsSound, example_file_at}

abbrev far_handle : OpenFileEntry
far_handle = record { of_inumber = pos 1; of_offset = 5 }

abbrev far : State
far = record example { open_file_table = set example.open_file_table 1 far_handle }

far-IsSound : IsSound 0 far
far-IsSound =
    set_open_file 1 far_handle
      (record {
        inumber = 1;
        is_inumber = refl;
        not_root = λ e. omega arith;
        in_table = omega arith;
        in_block = omega arith;
        inode = example_file_at;
      })
      example-IsSound

far-IsHandle : IsHandle 0 far 1 far_handle 1 example_file
far-IsHandle = record { opened = refl; entry = refl; inumber = refl; inode = refl }

tfs_read-past_end_example :
    tfs_read (pos 1) 4 far ≡ done ((pos 4, peek far.fs_data 95 4), moved_on far 1 far_handle 4)
tfs_read-past_end_example =
    tfs_read-past_end 1 4 far-IsSound refl far-IsHandle refl (omega arith) (λ e. omega arith)
      (omega arith) (omega arith) (omega arith)
