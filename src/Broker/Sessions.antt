-- ===== src/Broker/Sessions.antt =====
-- `reg_publisher` and `reg_subscriber` of mbroker/mbroker.c.
pub mod Subscriber
pub mod Endless
pub mod Publisher
pub mod Opening
pub mod Session
use t_cnico_file_system_pt.Prelude.{
  ℕ, zero, suc, ◌+◌, ◌-◌, ℤ, pos, negsuc, minus_one, is_minus_one, List, [], ◌∷◌, ◌++◌, Bool, true,
  false, not, if◌then◌else◌, ltb, leb, ◌==◌, length, replicate, Option, none, some,
}
use t_cnico_file_system_pt.Operations.Open.{tfs_open, tfs_close}
use t_cnico_file_system_pt.Operations.Transfer.{tfs_read, tfs_write}
use t_cnico_file_system_pt.Boxes.{Box}
use t_cnico_file_system_pt.Text.{c_string}
use t_cnico_file_system_pt.Messages.{
  Request, scan_coded, Coded, serialize_message, server_send, message_size,
}
use t_cnico_file_system_pt.Clients.{sent, closed, unlinked}
use t_cnico_file_system_pt.Clients.Manager.{overwritten, cleared}
use t_cnico_file_system_pt.Broker.{
  Broker, World, Run, finished, undefined, endless, Serving, pure, ◌>>=◌, ◌>>◌, calls, value, emit,
  find, load_box, store_box, free_box, clear_session,
}
use t_cnico_file_system_pt.Broker.Manage.{tfs_o_creat, tfs_o_append}

-- The string in an array of bytes, undefined where no NUL ends it.
abbrev pub string_in : List ℕ → Serving (List ℕ)
string_in buffer s = elim (c_string buffer) [ none ↦ undefined | some t ↦ finished (t, s) ]

-- `n + 1 < 0`
abbrev pub is_below_minus_one : ℤ → Bool
is_below_minus_one (pos n) = false
is_below_minus_one (negsuc n) = ltb 0 n

-- The arrays of `MSIZE+100` bytes.
abbrev pub buffer_size : ℕ
buffer_size = 1124

-- One message: the text that `buffer` holds goes to the file, with a space behind it. It says
-- whether the loop goes on, and what `code` and `message` then hold. A `strcat` past the array is
-- undefined.
unfoldable pub publish_message : ℤ → ℤ → List ℕ → List ℕ → Serving (Bool × ℤ × List ℕ)
publish_message fh code message buffer = do
  text ← string_in buffer
  r ← value (scan_coded code message text)
  if length r.line == 0
      then pure (false, r.code, r.line)
      else if leb message_size (length r.line + 1)
      then (λ s. undefined)
      else do
        b ← calls (tfs_write fh (r.line ++ (b' ' ∷ [])) (length r.line + 1))
        pure (not (is_below_minus_one b), r.code, r.line ++ (b' ' ∷ []))

-- The loop, as long as `read` returns a part of the list that is not empty.
unfoldable pub receive : ℤ → ℤ → List ℕ → List ℕ → List (List ℕ) → Serving (Unit {0})
receive fh code message buffer [] = pure tt
receive fh code message buffer ([] ∷ chunks) = pure tt
receive fh code message buffer ((c ∷ chunk) ∷ chunks) = do
  (more, code', message') ← publish_message fh code message (overwritten (c ∷ chunk) buffer)
  if more then receive fh code' message' (replicate buffer_size 0) chunks else pure tt

-- The session of a publisher, once its file is open.
unfoldable pub publish_to : World → ℤ → ℕ → ℤ → List ℕ → Serving (Unit {0})
publish_to world fd p fh client_pipe = do
  b ← load_box p
  store_box p (record b { has_writer = pos 1 })
  receive fh (pos 0) [] world.buffer (world.published client_pipe)
  e ← calls (tfs_close fh)
  b' ← load_box p
  store_box p (record b' { has_writer = pos 0 })
  emit (closed fd)

-- `hasWriter != 0`
abbrev pub is_nonzero : ℤ → Bool
is_nonzero (pos n) = not (n == 0)
is_nonzero (negsuc n) = true

unfoldable pub reg_publisher : World → Request → Serving (Unit {0})
reg_publisher world request =
    let fd = world.open_pipe request.client_pipe in
    if is_minus_one fd then pure tt else do
      p ← find world request.box_name
      b ← load_box p
      if is_nonzero b.has_writer then (do clear_session fd request.client_pipe; free_box p) else do
        fh ← calls (tfs_open (some b.box_name) tfs_o_append)
        if is_minus_one fh
            then (do free_box p; emit (closed fd))
            else publish_to world fd p fh request.client_pipe

-- `b - n` for a positive `b`.
abbrev pub minus : ℕ → ℕ → ℤ
minus b n = if leb n b then pos (b - n) else negsuc (n - b - 1)

-- The loop that sends what was read, `b` bytes of it left. It returns what `b` and the buffer are
-- in the end; each round takes one byte of `b` at least.
unfoldable pub deliver : ℕ → World → ℤ → ℤ → List ℕ → Serving (ℤ × List ℕ)
deliver rounds world fd (negsuc n) buffer = pure (negsuc n, buffer)
deliver rounds world fd (pos zero) buffer = pure (pos 0, buffer)
deliver zero world fd (pos (suc b)) buffer = λ s. endless
deliver (suc rounds) world fd (pos (suc b)) buffer = do
  text ← string_in buffer
  msg ← value (serialize_message server_send text)
  if not (world.accepts fd msg) then pure (pos (suc b), buffer) else do
    emit (sent fd msg)
    deliver rounds world fd (minus (suc b) (length text + 1)) (replicate (length buffer) 0)

-- `b == prev`
abbrev pub same_number : ℤ → ℤ → Bool
same_number (pos m) (pos n) = m == n
same_number (negsuc m) (negsuc n) = m == n
same_number (pos m) (negsuc n) = false
same_number (negsuc m) (pos n) = false

abbrev pub magnitude : ℤ → ℕ
magnitude (pos n) = n
magnitude (negsuc n) = 0

-- A round on what `tfs_read` has returned; `again` is the rest of the loop, for the buffer and
-- `prev`.
unfoldable pub forward_read :
    (List ℕ → ℤ → Serving (Unit {0})) → World → ℤ → List ℕ → ℤ → ℤ × List ℕ → Serving (Unit {0})
forward_read again world fd buffer prev (b, bytes) =
    if is_minus_one b
    then pure tt
    else if same_number b prev
    then again (overwritten bytes buffer) prev
    else do
      (left, buffer') ← deliver (magnitude b) world fd b (overwritten bytes buffer)
      again buffer' left

-- The loop over what `tfs_read` returns; `sleep` changes nothing.
unfoldable pub forward : ℕ → World → ℤ → ℤ → List ℕ → ℤ → Serving (Unit {0})
forward zero world fd fh buffer prev = λ s. endless
forward (suc rounds) world fd fh buffer prev =
    calls (tfs_read fh message_size)
    >>= forward_read (λ buffer' prev'. forward rounds world fd fh buffer' prev') world fd buffer
        prev

-- `n + 1` and `n - 1` of an `int`, in its range.
abbrev pub increased : ℤ → ℤ
increased (pos n) = pos (n + 1)
increased (negsuc zero) = pos 0
increased (negsuc (suc n)) = negsuc n

abbrev pub decreased : ℤ → ℤ
decreased (pos zero) = minus_one
decreased (pos (suc n)) = pos n
decreased (negsuc n) = negsuc (n + 1)

-- The session of a subscriber, once its file is open.
unfoldable pub subscribe_to : World → ℤ → ℕ → ℤ → List ℕ → Serving (Unit {0})
subscribe_to world fd p fh client_pipe = do
  b ← load_box p
  store_box p (record b { n_readers = increased b.n_readers })
  forward world.rounds world fd fh world.buffer (pos 0)
  e ← calls (tfs_close fh)
  b' ← load_box p
  store_box p (record b' { n_readers = decreased b'.n_readers })
  emit (unlinked client_pipe)

unfoldable pub reg_subscriber : World → Request → Serving (Unit {0})
reg_subscriber world request =
    let fd = world.open_pipe request.client_pipe in
    if is_minus_one fd then pure tt else do
      p ← find world request.box_name
      b ← load_box p
      if is_minus_one b.has_writer
          then (do clear_session fd request.client_pipe; free_box p)
          else do
            fh ← calls (tfs_open (some b.box_name) tfs_o_creat)
            if is_minus_one fh
                then (do clear_session fd request.client_pipe; free_box p)
                else subscribe_to world fd p fh request.client_pipe
