-- ===== src/Clients/Manager.antt =====
-- manager/manager.c.
use t_cnico_file_system_pt.Prelude.{
  ℕ, zero, suc, ℤ, pos, negsuc, minus_one, is_minus_one, List, [], ◌∷◌, ◌++◌, Bool, false, not,
  ◌||◌, ◌==◌, if◌then◌else◌, length, drop, Option, none, some,
}
use t_cnico_file_system_pt.State.Types.{Outcome, done, panic, fault, deadlock}
use t_cnico_file_system_pt.Text.{c_string, show_nat, scan_int, fits_int}
use t_cnico_file_system_pt.Boxes.{name_eq}
use t_cnico_file_system_pt.Messages.{
  pipe_name_size, box_name_size, create_box_code, remove_box_code, list_box_code, serialize,
  scan_coded, Coded, scan_answer, Answer, scan_listed, Listed,
}
use t_cnico_file_system_pt.Clients.{
  Surroundings, Ended, after, returns, clear_session, shown, Names, register, too_long,
}

pub data Command : Type 0 where
  create remove list : Command

-- "create", "remove" and "list".
unfoldable pub command_of : List ℕ → Option Command
unfolding name_eq
command_of s =
    if name_eq s (99 ∷ 114 ∷ 101 ∷ 97 ∷ 116 ∷ 101 ∷ [])
    then some create
    else if name_eq s (114 ∷ 101 ∷ 109 ∷ 111 ∷ 118 ∷ 101 ∷ [])
    then some remove
    else if name_eq s (108 ∷ 105 ∷ 115 ∷ 116 ∷ [])
    then some list
    else none

-- The checks of the three arguments and of the box's name, which is empty where it is not given.
unfoldable pub checked : List ℕ → List ℕ → List ℕ → List ℕ → Option (Names × Command)
checked register personal command name =
    if too_long pipe_name_size register || too_long pipe_name_size personal
    then none
    else elim (command_of command) [
      | none ↦ none
      | some c ↦
          if too_long box_name_size name
          then none
          else some (
            record { register_pipe = register; personal_pipe = personal; box_name = b'/' ∷ name },
            c,
          )
    ]

unfoldable pub manager_arguments : List (List ℕ) → Option (Names × Command)
unfolding checked
manager_arguments (program ∷ register ∷ personal ∷ command ∷ []) =
    checked register personal command []
manager_arguments (program ∷ register ∷ personal ∷ command ∷ name ∷ []) =
    checked register personal command name
manager_arguments argv = none

unfoldable pub manager_request : Names × Command → Outcome (List ℕ)
manager_request (names, create) = serialize create_box_code names.personal_pipe names.box_name
manager_request (names, remove) = serialize remove_box_code names.personal_pipe names.box_name
manager_request (names, list) = serialize list_box_code names.personal_pipe []

-- What stands in the local variables before they are set.
pub record Locals : Type 0 where
  pub code : ℤ
  pub input : List ℕ
  pub answer : Answer
  pub listed : Listed
  pub buffer : List ℕ

-- The bytes of the array after a `read` of `bytes` into it.
abbrev pub overwritten : List ℕ → List ℕ → List ℕ
overwritten bytes buffer = bytes ++ drop (length bytes) buffer

-- `memset(buffer, '\0', strlen(buffer))`
unfoldable pub cleared : List ℕ → List ℕ
cleared [] = []
cleared (c ∷ s) = let rest = cleared s in if c == 0 then c ∷ s else 0 ∷ rest

-- "%s %zu %zu %zu"
unfoldable pub listing_line : Listed → List ℕ
listing_line l =
    l.name
    ++ (b' '
        ∷ (show_nat l.size ++ (b' ' ∷ (show_nat l.publishers ++ (b' ' ∷ show_nat l.subscribers)))))

-- `sscanf(buffer, "%d %d %s %lu %lu %lu", …)`: the code first, then the rest as for the first line.
unfoldable pub scan_coded_listed : Listed → List ℕ → Outcome Listed
scan_coded_listed old buffer = elim (scan_int buffer) [
  | none ↦ done old
  | some r ↦ if fits_int r.0 then scan_listed old r.1 else fault
]

-- The loop over the lines of a listing; each `read` returns a part of the list, or fails at its
-- end.
unfoldable pub show_listing : ℤ → List ℕ → Listed → List ℕ → List (List ℕ) → Ended
show_listing fd pipe l buffer [] = clear_session fd pipe (returns (pos 0))
show_listing fd pipe l buffer (chunk ∷ chunks) =
    let rest : Listed → List ℕ → Ended = λ l' b. show_listing fd pipe l' b chunks in
    let buffer' = overwritten chunk (cleared buffer) in
    elim l.last [
      | pos (suc zero) ↦ clear_session fd pipe (returns (pos 0))
      | _ ↦ elim (length chunk) [
        | zero ↦ clear_session fd pipe (returns (pos 0))
        | suc n ↦ elim (c_string buffer') [
          | none ↦ fault
          | some text ↦ elim (scan_coded_listed l text) [
            | done l' ↦ after (shown (listing_line l')) (rest l' buffer')
            | panic ↦ panic
            | fault ↦ fault
            | deadlock ↦ deadlock
          ]
        ]
      ]
    ]

-- `code == 8`
abbrev pub is_list_answer : ℤ → Bool
is_list_answer (pos n) = n == 8
is_list_answer (negsuc n) = false

-- "ERROR %s" or "OK".
unfoldable pub answer_line : Answer → List ℕ
answer_line a =
    if is_minus_one a.return_code then 69 ∷ 82 ∷ 82 ∷ 79 ∷ 82 ∷ b' ' ∷ a.error_msg else 79 ∷ 75 ∷ []

-- The name "0" stands for no boxes.
unfoldable pub first_line : Listed → List ℕ
unfolding listing_line name_eq
first_line l =
    if name_eq l.name (b'0' ∷ [])
    then b' ' ∷ b'0' ∷ b' ' ∷ b'0' ∷ b' ' ∷ b'0' ∷ []
    else listing_line l

-- The first answer: an answer to `create` or `remove`, or the first line of a listing.
unfoldable pub show_answer : ℤ → List ℕ → Locals → Coded → List ℕ → List (List ℕ) → Ended
show_answer fd pipe locals r buffer chunks =
    if not (is_list_answer r.code)
    then elim (scan_answer locals.answer r.line) [
      | done a ↦ after (shown (answer_line a)) (clear_session fd pipe (returns (pos 0)))
      | panic ↦ panic
      | fault ↦ fault
      | deadlock ↦ deadlock
    ]
    else elim (scan_listed locals.listed r.line) [
      | done l ↦
          after (shown (first_line l))
            (show_listing fd pipe l (overwritten (r.line ++ (0 ∷ [])) buffer) chunks)
      | panic ↦ panic
      | fault ↦ fault
      | deadlock ↦ deadlock
    ]

-- A `read` that fails leaves the array as it was.
unfoldable pub read_answer : ℤ → List ℕ → Locals → List ℕ → List (List ℕ) → Ended
read_answer fd pipe locals buffer chunks = elim (c_string buffer) [
  | none ↦ fault
  | some text ↦ elim (scan_coded locals.code locals.input text) [
    | done r ↦ show_answer fd pipe locals r buffer chunks
    | panic ↦ panic
    | fault ↦ fault
    | deadlock ↦ deadlock
  ]
]

unfoldable pub await_answer : Surroundings → List ℕ → Locals → List (List ℕ) → Ended
await_answer world pipe locals chunks =
    let fd = world.open_pipe pipe in
    if is_minus_one fd then returns minus_one else elim chunks [
      | [] ↦ read_answer fd pipe locals locals.buffer []
      | chunk ∷ rest ↦ read_answer fd pipe locals (overwritten chunk locals.buffer) rest
    ]

-- The parts of the list are what the calls of `read` return.
unfoldable pub manager_main : Surroundings → List (List ℕ) → Locals → List (List ℕ) → Ended
manager_main world argv locals chunks = elim (manager_arguments argv) [
  | none ↦ returns minus_one
  | some r ↦
      register world r.0 (manager_request r) (await_answer world r.0.personal_pipe locals chunks)
]
