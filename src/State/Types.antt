-- ===== src/State/Types.antt =====
-- The data of fs/state.h and fs/state.c, and the monad of functions on the state.
use t_cnico_file_system_pt.Prelude.{ℕ, ℤ, List, Bool}

-- `tfs_params`
pub record TfsParams : Type 0 where
  pub max_inode_count : ℕ
  pub max_block_count : ℕ
  pub max_open_files_count : ℕ
  pub block_size : ℕ

pub data InodeType : Type 0 where
  t_file t_directory : InodeType

pub record Inode : Type 0 where
  pub i_node_type : InodeType
  pub i_size : ℕ
  pub i_data_block : ℤ

pub data AllocationState : Type 0 where
  free taken : AllocationState

pub record OpenFileEntry : Type 0 where
  pub of_inumber : ℤ
  pub of_offset : ℕ

-- `dir_entry_t`: the 40 bytes of the name, and the inumber.
pub record DirEntry : Type 0 where
  pub d_name : List ℕ
  pub d_inumber : ℤ

abbrev pub max_file_name : ℕ
max_file_name = 40

-- The offset of `d_inumber`, and `sizeof(dir_entry_t)`.
abbrev pub dir_entry_size : ℕ
dir_entry_size = 44

abbrev pub root_dir_inum : ℤ
root_dir_inum = ℤ.pos 0

-- The static variables of state.c and `g_library_mutex` of operations.c. `is_set_up` says that
-- `inode_table` is not NULL. A table is what can be read of it, so nothing where it is NULL; `fs_data`
-- is a byte for each offset below `fs_data_size`, 0 where it is NULL.
pub record State : Type 0 where
  pub params : TfsParams
  pub open params use *
  pub is_set_up : Bool
  pub inode_table : List Inode
  pub freeinode_ts : List AllocationState
  pub fs_data : ℕ → ℕ
  pub fs_data_size : ℕ
  pub free_blocks : List AllocationState
  pub open_file_table : List OpenFileEntry
  pub free_open_file_entries : List AllocationState
  pub mutex_locked : Bool

-- How a call ends: it returns, `PANIC` exits the process, it does what C leaves undefined, or it
-- waits for a mutex that its own thread holds.
pub data Outcome {ℓ} (A : Type ℓ) : Type ℓ where
  done : A → Outcome A
  panic fault deadlock : Outcome A

abbrev pub Fs {ℓ} : Type ℓ → Type ℓ
Fs A = State → Outcome (A × State)

abbrev pub pure {ℓ} : {A : Type ℓ} → A → Fs A
pure a s = done (a, s)

infixl 5 ◌>>=◌ ◌>>◌
abbrev pub ◌>>=◌ {ℓ κ} : {A : Type ℓ} {B : Type κ} → Fs A → (A → Fs B) → Fs B
◌>>=◌ m f s = elim (m s) [
  | done (a, s') ↦ f a s'
  | panic ↦ panic
  | fault ↦ fault
  | deadlock ↦ deadlock
]

abbrev pub ◌>>◌ {ℓ} : {B : Type ℓ} → Fs (Unit {0}) → Fs B → Fs B
m >> k = m >>= λ _. k

-- `ALWAYS_ASSERT`
abbrev pub always_assert : Bool → Fs (Unit {0})
always_assert b s = elim b [ Bool.true ↦ done (tt, s) | Bool.false ↦ panic ]

-- The value of a field of the static variables.
abbrev pub gets {ℓ} : {A : Type ℓ} → (State → A) → Fs A
gets f s = done (f s, s)

-- A computation on the tables, and what its value makes of the state.
abbrev pub commit {ℓ κ} :
    {A : Type ℓ} {B : Type κ} → (State → Outcome A) → (State → A → B × State) → Fs B
commit f g s = elim (f s) [
  | done a ↦ done (g s a)
  | panic ↦ panic
  | fault ↦ fault
  | deadlock ↦ deadlock
]
