-- ===== src/Broker/Main.antt =====
-- `func_main` and `main` of mbroker/mbroker.c. `signal`, `pthread_create` and `pthread_join`
-- succeed.
pub mod Handlers
use t_cnico_file_system_pt.Prelude.{
  ℕ, ℤ, pos, negsuc, minus_one, is_minus_one, List, [], ◌∷◌, Bool, false, not, if◌then◌else◌, ltb,
  ◌==◌, length, none, some,
}
use t_cnico_file_system_pt.State.Types.{Outcome, done, fault}
use t_cnico_file_system_pt.Operations.Setup.{tfs_init, tfs_destroy}
use t_cnico_file_system_pt.Boxes.{free_boxes}
use t_cnico_file_system_pt.Text.{scan_int, fits_int}
use t_cnico_file_system_pt.Messages.{Request, scan_request, fits_array, pipe_name_size}
use t_cnico_file_system_pt.Clients.{unlinked}
use t_cnico_file_system_pt.Clients.Manager.{overwritten}
use t_cnico_file_system_pt.Broker.{
  World, exits, undefined, Serving, pure, ◌>>=◌, ◌>>◌, calls, value, walks, emit, clear_session,
}
use t_cnico_file_system_pt.Broker.Manage.{create_box, remove_box, list_box}
use t_cnico_file_system_pt.Broker.Sessions.{reg_publisher, reg_subscriber, string_in}

-- The `switch` over the code of a request.
unfoldable pub dispatch : ℤ → World → Request → Serving (Unit {0})
dispatch (negsuc n) world request = pure tt
dispatch (pos n) world request =
    if n == 1
    then reg_publisher world request
    else if n == 2
    then reg_subscriber world request
    else if n == 3
    then create_box world request
    else if n == 5
    then remove_box world request
    else if n == 7
    then list_box world request
    else pure tt

-- One request in the buffer: it is read over the one before, which is returned, and served.
unfoldable pub serve_request : World → Request → List ℕ → Serving Request
serve_request world old buffer = do
  text ← string_in buffer
  request ← value (scan_request old text)
  if length request.client_pipe == 0
      then pure request
      else do dispatch request.code world request; pure request

-- The loop over what `read` returns from the register pipe: a part of the list, empty while no
-- client has the pipe open, and -1 at the end of the list.
unfoldable pub func_main : World → Request → List ℕ → List (List ℕ) → Serving (Unit {0})
func_main world request buffer [] = pure tt
func_main world request buffer ([] ∷ chunks) = func_main world request buffer chunks
func_main world request buffer ((c ∷ chunk) ∷ chunks) = do
  request' ← serve_request world request (overwritten (c ∷ chunk) buffer)
  func_main world request' (overwritten (c ∷ chunk) buffer) chunks

-- `atoi`, which C leaves undefined for a number that is no `int`; 0 for what is no number.
unfoldable pub atoi : List ℕ → Outcome ℤ
atoi s = elim (scan_int s) [
  | none ↦ done (pos 0)
  | some r ↦ if fits_int r.0 then done r.0 else fault
]

abbrev pub is_positive : ℤ → Bool
is_positive (pos n) = ltb 0 n
is_positive (negsuc n) = false

-- SIGINT
abbrev pub sigint : ℕ
sigint = 2

-- The handler of a signal, where it is called.
unfoldable pub sig_handler : World → List ℕ → ℕ → Serving (Unit {0})
sig_handler world register_pipe sig =
    if sig == sigint then clear_session (world.open_pipe register_pipe) register_pipe else pure tt

-- After the requests.
unfoldable pub shut_down : World → List ℕ → Serving ℤ
shut_down world register_pipe = do
  walks (λ s. free_boxes world.rounds s.heap s.head) (λ s h. (tt, record s { heap = h }))
  e ← calls tfs_destroy
  clear_session (world.open_pipe register_pipe) register_pipe
  pure (pos 0)

unfoldable pub run_broker : World → List ℕ → Request → List ℕ → List (List ℕ) → Serving ℤ
run_broker world register_pipe request buffer chunks =
    if not (fits_array pipe_name_size register_pipe) then (λ s. undefined) else do
      emit (unlinked register_pipe)
      if not (world.makes_pipe register_pipe)
          then (λ s. exits)
          else if is_minus_one (world.open_pipe register_pipe)
          then (λ s. exits)
          else do func_main world request buffer chunks; shut_down world register_pipe

-- The checks of the arguments. `request` and `buffer` are what the variables of `func_main` hold at
-- first.
unfoldable pub with_arguments : World → List (List ℕ) → Request → List ℕ → List (List ℕ) → Serving ℤ
with_arguments world (program ∷ register_pipe ∷ max_sessions ∷ []) request buffer chunks = do
  sessions ← value (atoi max_sessions)
  if is_positive sessions
      then run_broker world register_pipe request buffer chunks
      else pure minus_one
with_arguments world argv request buffer chunks = pure minus_one

unfoldable pub broker_main : World → List (List ℕ) → Request → List ℕ → List (List ℕ) → Serving ℤ
broker_main world argv request buffer chunks = do
  e ← calls (tfs_init world.allocation none)
  if is_minus_one e then pure minus_one else with_arguments world argv request buffer chunks
