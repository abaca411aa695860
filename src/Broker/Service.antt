-- ===== src/Broker/Service.antt =====
-- The broker of mbroker/mbroker.c as a service to managers and publishers: a list of names, what
-- each request does to it, and what each client is sent.
pub mod Lists
pub mod Boxes
pub mod Texts
pub mod Listed
pub mod Handled
pub mod Steps
pub mod Actions
pub mod Within
pub mod Histories
pub mod Lifetime
use t_cnico_file_system_pt.Prelude.{
  ℕ, ◌<◌, ◌≡◌, ◌≢◌, ◌⊎◌, ℤ, pos, minus_one, is_minus_one, List, [], ◌∷◌, ◌++◌, true, false, none,
  some, get_elem?, length,
}
use t_cnico_file_system_pt.State.Types.{Outcome, done, free}
use t_cnico_file_system_pt.State.Tables.FirstFree.{AllTaken}
use t_cnico_file_system_pt.State.Dir.Listing.{lookup, has_room}
use t_cnico_file_system_pt.State.Dir.Laws.{IsFileName}
use t_cnico_file_system_pt.Invariant.Defs.{root_entries}
use t_cnico_file_system_pt.Operations.Open.{slash}
use t_cnico_file_system_pt.Messages.{
  Request, serialize, register_publisher, request_bytes, box_name_size, pipe_name_size,
}
use t_cnico_file_system_pt.Clients.{Names, Event, sent, closed, unlinked}
use t_cnico_file_system_pt.Clients.Manager.{create, remove, list, manager_request, overwritten}
use t_cnico_file_system_pt.Clients.Requests.{IsNamed}
use t_cnico_file_system_pt.Broker.{Broker, World, Run, finished, undefined}
use t_cnico_file_system_pt.Broker.Find.{IsBroker}
use t_cnico_file_system_pt.Broker.Main.{serve_request}
use t_cnico_file_system_pt.Broker.Manage.Create.Add.{accepted_text}
use t_cnico_file_system_pt.Broker.Manage.Missing.{missing_text}
use t_cnico_file_system_pt.Broker.Sessions.Session.{Line, AreMessages}
use t_cnico_file_system_pt.Broker.Service.Lists.{has, without, forget, IsDistinct}
use t_cnico_file_system_pt.Broker.Service.Boxes.{AreNamed}
use t_cnico_file_system_pt.Broker.Service.Texts.{names_listing}

-- The directory has the names that the list has.
abbrev pub IsListed : List (List ℕ) → Broker → Type 0
IsListed names s =
    (n : List ℕ)
    → IsFileName n
    → (has names n ≡ true → (i : ℕ) × (lookup (root_entries 0 s.fs) n ≡ pos i))
      × (has names n ≡ false → lookup (root_entries 0 s.fs) n ≡ minus_one)

-- Between two requests the broker holds a list of names: its boxes have these names in this order,
-- and no sessions, its directory has a file for each of them and no other file, and a handle is
-- free.
pub record Holds (names : List (List ℕ)) (s : Broker) : Type 0 where
  pub boxes : List ℕ
  pub in_order : IsBroker boxes s
  pub named : AreNamed s.heap boxes names
  pub distinct : IsDistinct names
  pub listed : IsListed names s
  pub free_handle : ℕ
  pub is_free : get_elem? s.fs.free_open_file_entries free_handle ≡ some free

-- What a manager asks for, or a publisher.
pub data Action : Type 0 where
  to_create to_remove to_list to_publish : Action

-- What a client asks for, with the name of its pipe and of a box, without the slash.
pub record Asked : Type 0 where
  pub action : Action
  pub pipe : List ℕ
  pub name : List ℕ

abbrev pub names_of : Asked → Names
names_of a = record { register_pipe = []; personal_pipe = a.pipe; box_name = slash ∷ a.name }

-- The message of a request.
abbrev pub request_text : Action → Names → Outcome (List ℕ)
request_text to_create names = manager_request (names, create)
request_text to_remove names = manager_request (names, remove)
request_text to_list names = manager_request (names, list)
request_text to_publish names = serialize register_publisher names.personal_pipe names.box_name

abbrev pub HasName : Action → List ℕ → Type 0
HasName to_create n = IsFileName n
HasName to_remove n = IsFileName n
HasName to_list n = Unit
HasName to_publish n = IsFileName n

-- What comes through the pipe of a publisher are the messages of lines.
abbrev pub Speaks : World → Action → List ℕ → Type 0
Speaks world to_create pipe = Unit
Speaks world to_remove pipe = Unit
Speaks world to_list pipe = Unit
Speaks world to_publish pipe = (lines : List Line) × AreMessages lines (world.published pipe)

-- The names are words that fit the arrays of the broker, that of a box to create, to remove or to
-- publish to is a file name, the pipe opens and takes what is written, and what a publisher writes to
-- it are the messages of lines.
pub record IsAsked (world : World) (a : Asked) : Type 0 where
  pub is_named : IsNamed (names_of a)
  pub pipe_fits : length a.pipe < pipe_name_size
  pub name_fits : length (slash ∷ a.name) < box_name_size
  pub has_name : HasName a.action a.name
  pub speaks : Speaks world a.action a.pipe
  pub number : ℕ
  pub opens : world.open_pipe a.pipe ≡ pos number
  pub takes : (bytes : List ℕ) → world.accepts (pos number) bytes ≡ true

-- What a request does to the list of names, and what is sent for it. A box is not made where no
-- inode is free or the directory is full; a publisher leaves the list as it is.
pub data Step (world : World) (names : List (List ℕ)) (s : Broker) (n pipe : List ℕ) (fd : ℤ)
    : Action → List (List ℕ) → Broker → Type 0 where
  created :
      {s' : Broker} (i : ℕ)
      → has names n ≡ false
      → get_elem? s.fs.freeinode_ts i ≡ some free
      → has_room (root_entries 0 s.fs) ≡ true
      → s'.events ≡ s.events ++ (sent fd (request_bytes world.behind accepted_text) ∷ [])
      → Step world names s n pipe fd to_create (names ++ (n ∷ [])) s'
  refused :
      {s' : Broker}
      → has names n ≡ false
      → AllTaken s.fs.max_inode_count s.fs.freeinode_ts ⊎ (has_room (root_entries 0 s.fs) ≡ false)
      → s'.events ≡ s.events
      → Step world names s n pipe fd to_create names s'
  removed :
      {s' : Broker}
      → has names n ≡ true
      → s'.events
        ≡ (s.events ++ (sent fd (request_bytes world.behind accepted_text) ∷ []))
          ++ (closed fd ∷ [])
      → Step world names s n pipe fd to_remove (without names n) s'
  not_there :
      {s' : Broker}
      → has names n ≡ false
      → s'.events
        ≡ (s.events ++ (sent fd (request_bytes world.behind missing_text) ∷ [])) ++ (closed fd ∷ [])
      → Step world names s n pipe fd to_remove names s'
  listed :
      {s' : Broker}
      → s'.events ≡ (s.events ++ names_listing world fd names) ++ (closed fd ∷ [])
      → Step world names s n pipe fd to_list names s'
  published :
      {s' : Broker}
      → has names n ≡ true
      → s'.events ≡ s.events ++ (closed fd ∷ [])
      → Step world names s n pipe fd to_publish names s'
  turned_away :
      {s' : Broker}
      → has names n ≡ false
      → s'.events ≡ (s.events ++ (unlinked pipe ∷ [])) ++ (closed fd ∷ [])
      → Step world names s n pipe fd to_publish names s'

-- How a run of the broker serves a history of requests that `read` returns in chunks, and then ends.
-- Each is served by a step, from the names and the broker that the last one left, and the broker
-- after it is the one that `serve_request` leaves, with the request and the buffer of `func_main`
-- that go into the next one; or up to a request about a name that is not there, for which `malloc`
-- gives no box.
pub data Serves (world : World) {A : Type 0}
    (Ends : List (List ℕ) → Broker → Run (A × Broker) → Type 0) (o : Run (A × Broker))
    : List (List ℕ) → Broker → Request → List ℕ → List (List ℕ) → List Asked → Type 0 where
  all_served :
      {names : List (List ℕ)} {s : Broker} {old : Request} {buffer : List ℕ}
      → Ends names s o
      → Serves world Ends o names s old buffer [] []
  quiet :
      {names : List (List ℕ)} {s : Broker} {old : Request} {buffer : List ℕ}
      {chunks : List (List ℕ)} {history : List Asked}
      → Serves world Ends o names s old buffer chunks history
      → Serves world Ends o names s old buffer ([] ∷ chunks) history
  served :
      {names names' : List (List ℕ)} {s s' : Broker} {old request : Request} {buffer chunk : List ℕ}
      {chunks : List (List ℕ)} {a : Asked} {history : List Asked}
      → serve_request world old (overwritten chunk buffer) s ≡ finished (request, s')
      → Step world names s a.name a.pipe (world.open_pipe a.pipe) a.action names' s'
      → Holds names' s'
      → Serves world Ends o names' s' request (overwritten chunk buffer) chunks history
      → Serves world Ends o names s old buffer (chunk ∷ chunks) (a ∷ history)
  no_memory :
      {names : List (List ℕ)} {s : Broker} {old : Request} {buffer chunk : List ℕ}
      {chunks : List (List ℕ)} {a : Asked} {history : List Asked}
      → a.action ≢ to_list
      → has names a.name ≡ false
      → world.malloc s.heap ≡ none
      → serve_request world old (overwritten chunk buffer) s ≡ undefined
      → o ≡ undefined
      → Serves world Ends o names s old buffer (chunk ∷ chunks) (a ∷ history)

-- The run returns in the state that the last request left.
abbrev pub Returns : List (List ℕ) → Broker → Run (Unit {0} × Broker) → Type 0
Returns names s o = o ≡ finished (tt, s)

-- No name is asked for again after a request to create it, unless one to remove it came between.
-- `may` are the names that may be there before the history.
abbrev pub MayAsk : Action → List (List ℕ) → List ℕ → Type 0
MayAsk to_create may n = has may n ≡ false
MayAsk to_remove may n = Unit
MayAsk to_list may n = Unit
MayAsk to_publish may n = Unit

abbrev pub may_after : Action → List (List ℕ) → List ℕ → List (List ℕ)
may_after to_create may n = n ∷ may
may_after to_remove may n = forget may n
may_after to_list may n = may
may_after to_publish may n = may

abbrev pub IsFresh : List (List ℕ) → List Asked → Type 0
IsFresh may [] = Unit
IsFresh may (a ∷ history) =
    MayAsk a.action may a.name × IsFresh (may_after a.action may a.name) history

abbrev pub EachAsked : World → List Asked → Type 0
EachAsked world [] = Unit
EachAsked world (a ∷ history) = IsAsked world a × EachAsked world history

-- The calls of `read` return the requests one after another, as the clients have written them; where
-- no client has the pipe open they return nothing.
abbrev pub Arrive : List Asked → List (List ℕ) → Type 0
Arrive [] [] = Unit
Arrive [] ([] ∷ chunks) = Arrive [] chunks
Arrive [] ((c ∷ chunk) ∷ chunks) = ⊥
Arrive (a ∷ history) [] = ⊥
Arrive (a ∷ history) ([] ∷ chunks) = Arrive (a ∷ history) chunks
Arrive (a ∷ history) ((c ∷ chunk) ∷ chunks) =
    ((text : List ℕ) × (behind : List ℕ) × (request_text a.action (names_of a) ≡ done text)
      × ((c ∷ chunk) ≡ request_bytes behind text))
    × Arrive history chunks
