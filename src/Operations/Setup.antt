-- ===== src/Operations/Setup.antt =====
-- `tfs_default_params`, `tfs_init` and `tfs_destroy` of fs/operations.c.
pub mod Fresh
pub mod Again
use t_cnico_file_system_pt.Prelude.{
  ℤ, pos, negsuc, minus_one, ◌==◌, Bool, false, not, if◌then◌else◌, Option, none, some,
}
use t_cnico_file_system_pt.State.Types.{Fs, pure, ◌>>=◌, TfsParams, t_directory}
use t_cnico_file_system_pt.State.Inodes.{inode_create}
use t_cnico_file_system_pt.State.Init.{Allocation, state_init, state_destroy}

abbrev pub tfs_default_params : TfsParams
tfs_default_params = record {
  max_inode_count = 64;
  max_block_count = 1024;
  max_open_files_count = 16;
  block_size = 1024;
}

abbrev pub params_of : Option TfsParams → TfsParams
params_of none = tfs_default_params
params_of (some params) = params

-- `r == 0`
abbrev pub is_zero : ℤ → Bool
is_zero (pos n) = n == 0
is_zero (negsuc n) = false

unfoldable pub tfs_init : Allocation → Option TfsParams → Fs ℤ
tfs_init alloc params_ptr = do
  e ← state_init alloc (params_of params_ptr)
  if not (is_zero e) then pure minus_one else do
    root ← inode_create t_directory
    if not (is_zero root) then pure minus_one else pure (pos 0)

unfoldable pub tfs_destroy : Fs ℤ
tfs_destroy = do e ← state_destroy; if not (is_zero e) then pure minus_one else pure (pos 0)
