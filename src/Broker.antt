-- ===== src/Broker.antt =====
-- The state of mbroker/mbroker.c: the file system, the list of boxes from `head` on, and the calls
-- that others can see; the monad of functions on it, and the steps that the handlers share.
pub mod Post
pub mod Find
pub mod Manage
pub mod Sessions
pub mod Main
pub mod Service
use t_cnico_file_system_pt.Prelude.{
  ℕ, ℤ, pos, negsuc, ◌-◌, List, [], ◌∷◌, ◌++◌, Bool, if◌then◌else◌, Option, none, some, size_mod,
}
use t_cnico_file_system_pt.State.Types.{State, Outcome, done, panic, fault, deadlock, Fs}
use t_cnico_file_system_pt.State.Init.{Allocation}
use t_cnico_file_system_pt.Boxes.{
  Box, Heap, put, Walk, returned, invalid, unfinished, find_box, iterate_box,
}
use t_cnico_file_system_pt.Messages.{request_bytes, serialize_answer, answer_create_box}
use t_cnico_file_system_pt.Clients.{Event, sent, unlinked, closed}

pub record Broker : Type 0 where
  pub fs : State
  pub heap : Heap
  pub head : Option ℕ
  pub events : List Event

-- What the calls of the C library and of the system return: `open`, `mkfifo` and `write` as for the
-- clients; the arrays that `malloc` gives to the file system, the address that it gives to a box
-- and what stands there; what a new buffer holds; what the calls of `read` return from the pipe of
-- a publisher. A walk or a session may make so many rounds.
pub record World : Type 0 where
  pub open_pipe : List ℕ → ℤ
  pub makes_pipe : List ℕ → Bool
  pub accepts : ℤ → List ℕ → Bool
  pub behind : List ℕ
  pub allocation : Allocation
  pub malloc : Heap → Option ℕ
  pub garbage : Box
  pub buffer : List ℕ
  pub published : List ℕ → List (List ℕ)
  pub rounds : ℕ

-- How a run ends: it returns, `exit` or `PANIC` ends the process, it does what C leaves undefined,
-- it waits for a mutex of its own, or it needs more rounds.
pub data Run {ℓ} (A : Type ℓ) : Type ℓ where
  finished : A → Run A
  exits undefined stuck endless : Run A

abbrev pub Serving : Type 0 → Type 0
Serving A = Broker → Run (A × Broker)

abbrev pub pure : {A : Type 0} → A → Serving A
pure a s = finished (a, s)

abbrev pub continue : {A B : Type 0} → Run (A × Broker) → (A → Serving B) → Run (B × Broker)
continue (finished (a, s)) f = f a s
continue exits f = exits
continue undefined f = undefined
continue stuck f = stuck
continue endless f = endless

infixl 5 ◌>>=◌ ◌>>◌
abbrev pub ◌>>=◌ : {A B : Type 0} → Serving A → (A → Serving B) → Serving B
◌>>=◌ m f s = continue (m s) f

abbrev pub ◌>>◌ : {B : Type 0} → Serving (Unit {0}) → Serving B → Serving B
m >> k = m >>= λ _. k

-- A call of the file system.
abbrev pub calls : {A : Type 0} → Fs A → Serving A
calls m s = elim (m s.fs) [
  | done (a, fs) ↦ finished (a, record s { fs = fs })
  | panic ↦ exits
  | fault ↦ undefined
  | deadlock ↦ stuck
]

-- A value that C may leave undefined.
abbrev pub value : {A : Type 0} → Outcome A → Serving A
value (done a) s = finished (a, s)
value panic s = exits
value fault s = undefined
value deadlock s = stuck

-- What a walk along the list makes of the state.
abbrev pub walks : {A B : Type 0} → (Broker → Walk A) → (Broker → A → B × Broker) → Serving B
walks walk make s = elim (walk s) [
  | returned a ↦ finished (make s a)
  | invalid ↦ undefined
  | unfinished ↦ endless
]

abbrev pub emit : Event → Serving (Unit {0})
emit e s = finished (tt, record s { events = s.events ++ (e ∷ []) })

-- `find_box(box_name, head)`
unfoldable pub find : World → List ℕ → Serving ℕ
find world box_name =
    walks (λ s. find_box world.rounds (world.malloc s.heap) world.garbage s.heap s.head box_name)
      (λ s r. (r.0, record s { heap = r.1 }))

-- `iterate_box(head)`
unfoldable pub iterate : World → Serving (Unit {0})
iterate world = walks (λ s. iterate_box world.rounds s.heap s.head) (λ s r. (tt, s))

-- `*p` of a box, read, written and freed.
abbrev pub load_box : ℕ → Serving Box
load_box p s = elim (s.heap p) [ none ↦ undefined | some b ↦ finished (b, s) ]

unfoldable pub store_box : ℕ → Box → Serving (Unit {0})
store_box p b s = elim (s.heap p) [
  | none ↦ undefined
  | some old ↦ finished (tt, record s { heap = put s.heap p (some b) })
]

unfoldable pub free_box : ℕ → Serving (Unit {0})
free_box p s = elim (s.heap p) [
  | none ↦ undefined
  | some old ↦ finished (tt, record s { heap = put s.heap p none })
]

-- `send_request`
unfoldable pub send_request : World → ℤ → List ℕ → Serving (Unit {0})
send_request world tx r1 =
    let bytes = request_bytes world.behind r1 in
    if world.accepts tx bytes then emit (sent tx bytes) else λ s. exits

-- The answer to a request for or against a box.
unfoldable pub answer : World → ℤ → ℤ → List ℕ → Serving (Unit {0})
answer world fd return_code error_msg = do
  msg ← value (serialize_answer answer_create_box return_code error_msg)
  send_request world fd msg

-- `clear_session`
abbrev pub clear_session : ℤ → List ℕ → Serving (Unit {0})
clear_session fd path = do emit (unlinked path); emit (closed fd)

-- `(uint64_t)n` of an `int`.
abbrev pub to_uint64 : ℤ → ℕ
to_uint64 (pos n) = n
to_uint64 (negsuc n) = size_mod - 1 - n
