-- ===== src/Broker/Manage.antt =====
-- `create_box`, `list_box` and `remove_box` of mbroker/mbroker.c.
pub mod Create
pub mod Listing
pub mod Existing
pub mod Removal
pub mod Missing
use t_cnico_file_system_pt.Prelude.{
  ℕ, zero, suc, ℤ, pos, minus_one, is_minus_one, List, [], ◌∷◌, Bool, true, false, not,
  if◌then◌else◌, Option, none, some, ltb, length,
}
use t_cnico_file_system_pt.Operations.Open.{tfs_open, tfs_close}
use t_cnico_file_system_pt.Operations.Unlink.{tfs_unlink}
use t_cnico_file_system_pt.Boxes.{Box, insert_box, delete_box}
use t_cnico_file_system_pt.Messages.{
  Request, serialize_listing, list_answer, fits_array, box_name_size,
}
use t_cnico_file_system_pt.Clients.{closed}
use t_cnico_file_system_pt.Broker.{
  Broker, World, Run, undefined, endless, Serving, pure, ◌>>=◌, ◌>>◌, calls, value, walks, emit,
  find, iterate, load_box, store_box, free_box, send_request, answer, to_uint64,
}

abbrev pub tfs_o_creat : ℕ
tfs_o_creat = 1

abbrev pub tfs_o_append : ℕ
tfs_o_append = 4

-- "Can't create box, already exists"
abbrev pub already_exists : List ℕ
already_exists =
    67 ∷ 97 ∷ 110 ∷ 39 ∷ 116 ∷ 32 ∷ 99 ∷ 114 ∷ 101 ∷ 97 ∷ 116 ∷ 101 ∷ 32 ∷ 98 ∷ 111 ∷ 120 ∷ 44 ∷ 32
    ∷ 97 ∷ 108 ∷ 114 ∷ 101 ∷ 97 ∷ 100 ∷ 121 ∷ 32 ∷ 101 ∷ 120 ∷ 105 ∷ 115 ∷ 116 ∷ 115 ∷ []

-- "Box doesn't exist\n"
abbrev pub does_not_exist : List ℕ
does_not_exist =
    66 ∷ 111 ∷ 120 ∷ 32 ∷ 100 ∷ 111 ∷ 101 ∷ 115 ∷ 110 ∷ 39 ∷ 116 ∷ 32 ∷ 101 ∷ 120 ∷ 105 ∷ 115 ∷ 116
    ∷ 10 ∷ []

-- `fh != -1 || box->hasWriter != -1`
unfoldable pub is_existing : ℤ → ℕ → Serving Bool
is_existing fh p =
    if not (is_minus_one fh)
    then pure true
    else do b ← load_box p; pure (not (is_minus_one b.has_writer))

unfoldable pub reject_box : World → ℤ → ℕ → ℤ → Serving (Unit {0})
reject_box world fd p fh = do
  free_box p
  e ← calls (tfs_close fh)
  answer world fd minus_one already_exists
  e' ← calls (tfs_close fh)
  pure tt

-- `strcpy` of the name is undefined where the array is too small.
unfoldable pub name_box : ℕ → List ℕ → Serving (Unit {0})
name_box p box_name = do
  b ← load_box p
  if fits_array box_name_size box_name
      then store_box p (record b { has_writer = pos 0; n_readers = pos 0; box_name = box_name })
      else λ s. undefined

unfoldable pub add_box : World → ℤ → ℕ → List ℕ → Serving (Unit {0})
add_box world fd p box_name = do
  fh ← calls (tfs_open (some box_name) tfs_o_creat)
  if is_minus_one fh then pure tt else do
    name_box p box_name
    walks (λ s. insert_box world.rounds s.heap p s.head)
        (λ s r. (tt, record s { head = r.0; heap = r.1 }))
    answer world fd (pos 0) []
    e ← calls (tfs_close fh)
    pure tt

unfoldable pub create_box : World → Request → Serving (Unit {0})
create_box world request =
    let fd = world.open_pipe request.client_pipe in
    if is_minus_one fd then pure tt else do
      p ← find world request.box_name
      fh ← calls (tfs_open (some request.box_name) tfs_o_append)
      exists ← is_existing fh p
      if exists then reject_box world fd p fh else add_box world fd p request.box_name

-- `sizeof(current)`, the size of a pointer.
abbrev pub pointer_size : ℕ
pointer_size = 8

abbrev pub last_flag : Option ℕ → ℕ
last_flag none = 1
last_flag (some p) = 0

-- The loop over the boxes.
unfoldable pub list_from : ℕ → World → ℤ → Option ℕ → Serving (Unit {0})
list_from zero world fd none = pure tt
list_from zero world fd (some current) = λ s. endless
list_from (suc rounds) world fd none = pure tt
list_from (suc rounds) world fd (some current) = do
  b ← load_box current
  str ← value (
      serialize_listing list_answer (last_flag b.next) b.box_name pointer_size
        (to_uint64 b.has_writer) (to_uint64 b.n_readers))
  send_request world fd str
  list_from rounds world fd b.next

unfoldable pub list_none : World → ℤ → Serving (Unit {0})
list_none world fd = do
  str ← value (serialize_listing list_answer 1 [] 0 0 0)
  send_request world fd str

unfoldable pub list_all : World → ℤ → Serving (Unit {0})
list_all world fd s = elim s.head [
  | none ↦ list_none world fd s
  | some current ↦ list_from world.rounds world fd (some current) s
]

unfoldable pub list_box : World → Request → Serving (Unit {0})
list_box world request =
    let fd = world.open_pipe request.client_pipe in
    if is_minus_one fd then pure tt else do list_all world fd; emit (closed fd)

-- `fh == -1 || box->n_readers == -1`
unfoldable pub is_missing : ℤ → ℕ → Serving Bool
is_missing fh p =
    if is_minus_one fh then pure true else do b ← load_box p; pure (is_minus_one b.n_readers)

unfoldable pub drop_box : World → ℤ → ℕ → ℤ → List ℕ → Serving (Unit {0})
drop_box world fd p fh box_name = do
  b ← load_box p
  walks (λ s. delete_box world.rounds s.heap b.box_name s.head)
      (λ s r. (tt, record s { head = r.0; heap = r.1 }))
  e ← calls (tfs_close fh)
  u ← calls (tfs_unlink (some box_name))
  answer world fd (if is_minus_one u then minus_one else pos 0) []

unfoldable pub remove_box : World → Request → Serving (Unit {0})
remove_box world request = do
  iterate world
  let fd = world.open_pipe request.client_pipe
  if is_minus_one fd then pure tt else do
    p ← find world request.box_name
    fh ← calls (tfs_open (some request.box_name) tfs_o_append)
    missing ← is_missing fh p
    if missing
        then (do free_box p; answer world fd minus_one does_not_exist)
        else drop_box world fd p fh request.box_name
    iterate world
    emit (closed fd)
