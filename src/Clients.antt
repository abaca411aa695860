-- ===== src/Clients.antt =====
-- publisher/pub.c and subscriber/sub.c. A client is a function from what its surroundings answer to
-- the value that `main` returns and the calls that others can see. `signal` succeeds.
pub mod Manager
pub mod Requests
use t_cnico_file_system_pt.Prelude.{
  ℕ, ℤ, pos, minus_one, is_minus_one, List, [], ◌∷◌, ◌++◌, Bool, not, ◌||◌, ◌==◌, leb,
  if◌then◌else◌, length, Option, none, some,
}
use t_cnico_file_system_pt.State.Types.{Outcome, done, panic, fault, deadlock}
use t_cnico_file_system_pt.Text.{c_string}
use t_cnico_file_system_pt.Messages.{
  pipe_name_size, box_name_size, message_size, register_publisher, register_subscriber, send_code,
  serialize, serialize_message, request_bytes, scan_coded, Coded,
}

-- A call that others can see, and a line on the standard output.
pub data Event : Type 0 where
  sent : ℤ → List ℕ → Event
  unlinked : List ℕ → Event
  closed : ℤ → Event
  shown : List ℕ → Event

-- What `open` and `mkfifo` return for a path, whether a `write` succeeds, and what stands in memory
-- behind a message.
pub record Surroundings : Type 0 where
  pub open_pipe : List ℕ → ℤ
  pub makes_pipe : List ℕ → Bool
  pub accepts : ℤ → List ℕ → Bool
  pub behind : List ℕ

abbrev pub Ended : Type 0
Ended = Outcome (ℤ × List Event)

abbrev pub after : Event → Ended → Ended
after e (done r) = done (r.0, e ∷ r.1)
after e panic = panic
after e fault = fault
after e deadlock = deadlock

-- A `main` that returns without a further call.
abbrev pub returns : ℤ → Ended
returns status = done (status, [])

-- `clear_session`
abbrev pub clear_session : ℤ → List ℕ → Ended → Ended
clear_session fd path rest = after (unlinked path) (after (closed fd) rest)

-- `send_request`, which leaves the process where the write fails.
unfoldable pub send_request : Surroundings → ℤ → List ℕ → Ended → Ended
send_request world tx r1 rest =
    let bytes = request_bytes world.behind r1 in
    if world.accepts tx bytes then after (sent tx bytes) rest else returns (pos 1)

pub record Names : Type 0 where
  pub register_pipe : List ℕ
  pub personal_pipe : List ℕ
  pub box_name : List ℕ

abbrev pub too_long : ℕ → List ℕ → Bool
too_long size s = leb size (length s)

-- The checks of the arguments, and the names with the slash before that of the box.
unfoldable pub client_arguments : List (List ℕ) → Option Names
client_arguments (program ∷ register ∷ personal ∷ name ∷ []) =
    if too_long pipe_name_size register || too_long pipe_name_size personal
    then none
    else if too_long box_name_size name
    then none
    else some
        (record { register_pipe = register; personal_pipe = personal; box_name = b'/' ∷ name })
client_arguments argv = none

-- From the opening of the register pipe to the request, and then `session`.
unfoldable pub register : Surroundings → Names → Outcome (List ℕ) → Ended → Ended
register world names request session =
    if is_minus_one (world.open_pipe names.register_pipe)
    then returns minus_one
    else if not (world.makes_pipe names.personal_pipe)
    then returns minus_one
    else elim request [
      | done str ↦ send_request world (world.open_pipe names.register_pipe) str session
      | panic ↦ panic
      | fault ↦ fault
      | deadlock ↦ deadlock
    ]

-- The loop over the lines that `fgets` returns.
unfoldable pub publish_lines : Surroundings → ℤ → List ℕ → List (List ℕ) → Ended
publish_lines world fd pipe [] = clear_session fd pipe (returns (pos 0))
publish_lines world fd pipe (input ∷ lines) =
    let rest = publish_lines world fd pipe lines in
    elim (serialize_message send_code input) [
      | done msg ↦
          if world.accepts fd (msg ++ (0 ∷ []))
          then after (sent fd (msg ++ (0 ∷ []))) rest
          else clear_session fd pipe (returns (pos 0))
      | panic ↦ panic
      | fault ↦ fault
      | deadlock ↦ deadlock
    ]

unfoldable pub publish : Surroundings → List ℕ → List (List ℕ) → Ended
publish world pipe lines =
    let fd = world.open_pipe pipe in
    if is_minus_one fd
    then clear_session fd pipe (returns minus_one)
    else if not (world.accepts fd (b' ' ∷ []))
    then returns minus_one
    else after (sent fd (b' ' ∷ [])) (publish_lines world fd pipe lines)

unfoldable pub pub_main : Surroundings → List (List ℕ) → List (List ℕ) → Ended
pub_main world argv lines = elim (client_arguments argv) [
  | none ↦ returns minus_one
  | some names ↦
      register world names (serialize register_publisher names.personal_pipe names.box_name)
        (publish world names.personal_pipe lines)
]

-- The loop over what `read` returns, as long as it is positive; it ends with the list. A `buf[c] =
-- 0` at the size of `buf` is past its end.
unfoldable pub show_messages : ℤ → List ℕ → ℤ → List ℕ → List (List ℕ) → Ended
show_messages fd pipe code output [] = clear_session fd pipe (returns (pos 0))
show_messages fd pipe code output (chunk ∷ chunks) =
    let rest : ℤ → List ℕ → Ended = λ c o. show_messages fd pipe c o chunks in
    if length chunk == 0
    then clear_session fd pipe (returns (pos 0))
    else if leb message_size (length chunk)
    then fault
    else elim (c_string (chunk ++ (0 ∷ []))) [
      | none ↦ fault
      | some buf ↦ elim (scan_coded code output buf) [
        | done r ↦
            if r.count == 2 then after (shown r.line) (rest r.code r.line) else rest r.code r.line
        | panic ↦ panic
        | fault ↦ fault
        | deadlock ↦ deadlock
      ]
    ]

unfoldable pub subscribe : Surroundings → List ℕ → ℤ → List ℕ → List (List ℕ) → Ended
subscribe world pipe code output chunks =
    let fd = world.open_pipe pipe in
    if is_minus_one fd
    then clear_session fd pipe (returns minus_one)
    else show_messages fd pipe code output chunks

-- `code` and `output` hold something before the first message.
unfoldable pub sub_main : Surroundings → List (List ℕ) → ℤ → List ℕ → List (List ℕ) → Ended
sub_main world argv code output chunks = elim (client_arguments argv) [
  | none ↦ returns minus_one
  | some names ↦
      register world names (serialize register_subscriber names.personal_pipe names.box_name)
        (subscribe world names.personal_pipe code output chunks)
]
