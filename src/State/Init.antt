-- ===== src/State/Init.antt =====
-- `state_init` and `state_destroy` of fs/state.c. What `malloc` returns is an argument. The pointers
-- are in the state as what can be read through them; `is_set_up` is `inode_table != NULL`.
use t_cnico_file_system_pt.Prelude.{
  ℕ, zero, suc, ℤ, pos, minus_one, List, [], ◌∷◌, Bool, true, false, not, ◌||◌, if◌then◌else◌,
  Option, none, some,
}
use t_cnico_file_system_pt.State.Types.{
  TfsParams, Fs, Outcome, done, panic, fault, deadlock, AllocationState, free, Inode, OpenFileEntry,
}

-- The arrays that the six calls of `malloc` return, with whatever is in them; `none` is NULL, which
-- is not an array of no entries.
pub record Allocation : Type 0 where
  pub inodes : Option (List Inode)
  pub inode_states : Option (List AllocationState)
  pub bytes : Option (ℕ → ℕ)
  pub bytes_size : ℕ
  pub block_states : Option (List AllocationState)
  pub open_files : Option (List OpenFileEntry)
  pub open_file_states : Option (List AllocationState)

abbrev pub is_null {ℓ} : {A : Type ℓ} → Option A → Bool
is_null none = true
is_null (some x) = false

-- What can be read through the pointer, nothing through NULL.
abbrev pub array {ℓ} : {A : Type ℓ} → Option (List A) → List A
array none = []
array (some t) = t

abbrev pub byte_array : Option (ℕ → ℕ) → ℕ → ℕ
byte_array none = λ a. 0
byte_array (some m) = m

-- The loops that mark entries FREE: of a table, the first `rounds` ones.
unfoldable pub mark_free : ℕ → List AllocationState → Outcome (List AllocationState)
mark_free zero t = done t
mark_free (suc rounds) [] = fault
mark_free (suc rounds) (a ∷ t) = elim (mark_free rounds t) [
  | done t' ↦ done (free ∷ t')
  | panic ↦ panic
  | fault ↦ fault
  | deadlock ↦ deadlock
]

unfoldable pub mark_all_free : Fs ℤ
mark_all_free s = elim (mark_free s.max_inode_count s.freeinode_ts) [
  | done a ↦ elim (mark_free s.max_block_count s.free_blocks) [
    | done b ↦ elim (mark_free s.max_open_files_count s.free_open_file_entries) [
      | done c ↦
          done (pos 0, record s { freeinode_ts = a; free_blocks = b; free_open_file_entries = c })
      | _ ↦ fault
    ]
    | _ ↦ fault
  ]
  | _ ↦ fault
]

unfoldable pub state_init : Allocation → TfsParams → Fs ℤ
state_init alloc params s =
    let s' = record s { params = params } in
    if s'.is_set_up
    then done (minus_one, s')
    else let s'' = record s' {
      is_set_up = not (is_null alloc.inodes);
      inode_table = array alloc.inodes;
      freeinode_ts = array alloc.inode_states;
      fs_data = byte_array alloc.bytes;
      fs_data_size = (if is_null alloc.bytes then 0 else alloc.bytes_size);
      free_blocks = array alloc.block_states;
      open_file_table = array alloc.open_files;
      free_open_file_entries = array alloc.open_file_states;
    } in
      if is_null alloc.inodes
        || is_null alloc.inode_states
        || is_null alloc.bytes
        || is_null alloc.block_states
        || is_null alloc.open_files
        || is_null alloc.open_file_states
      then done (minus_one, s'')
      else mark_all_free s''

unfoldable pub state_destroy : Fs ℤ
state_destroy s = done (
  pos 0,
  record s {
    is_set_up = false;
    inode_table = [];
    freeinode_ts = [];
    fs_data = λ a. 0;
    fs_data_size = 0;
    free_blocks = [];
    open_file_table = [];
    free_open_file_entries = [];
  },
)
