-- ===== src/Broker/Manage/Existing.antt =====
-- A request for a box that exists already, in `create_box` of mbroker/mbroker.c.
pub mod Freed
use t_cnico_file_system_pt.Prelude.{
  ℕ, zero, suc, ◌≤◌, ◌≡◌, ◌≢◌, refl, sym, ap, ◌∙◌, arith, ℤ, pos, minus_one, is_minus_one, List, [],
  ◌∷◌, ◌++◌, true, false, Bool-cases, inl, inr, Option, none, some, get_elem?, get_elem?-set_self,
  get_elem?_bound, length, ◌==◌, ==_iff,
}
use t_cnico_file_system_pt.State.Types.{State, done, free, taken}
use t_cnico_file_system_pt.State.Dir.Listing.{lookup}
use t_cnico_file_system_pt.Invariant.Defs.{IsSound, root_entries}
use t_cnico_file_system_pt.Operations.Open.{tfs_open, tfs_close, slash}
use t_cnico_file_system_pt.Operations.Open.Handle.{path_to, table_full, handle}
use t_cnico_file_system_pt.Operations.Open.Existing.{tfs_open-Reopens}
use t_cnico_file_system_pt.Operations.Open.Close.{tfs_close-closes, closed_at, closed_handle}
use t_cnico_file_system_pt.Boxes.{Box, Heap, put, invalid, iterate_box}
use t_cnico_file_system_pt.Boxes.Chain.{
  IsChain, IsOutside, first_named, has_name, put_other, put_same,
}
use t_cnico_file_system_pt.Text.{show_int, show_nat, emit}
use t_cnico_file_system_pt.Messages.{Request, request_bytes, serialize_answer, answer_create_box}
use t_cnico_file_system_pt.Clients.{sent}
use t_cnico_file_system_pt.Broker.{
  Broker, World, Run, finished, undefined, iterate, answer, send_request, free_box,
}
use t_cnico_file_system_pt.Broker.Post.{calls-eq, continue-eq, continue-undefined}
use t_cnico_file_system_pt.Broker.Find.{
  GivesFresh, IsBroker, with_box, with_box-kept, find-found, with_box-IsBroker,
}
use t_cnico_file_system_pt.Broker.Manage.{
  create_box, remove_box, is_existing, reject_box, already_exists, tfs_o_append,
}
use t_cnico_file_system_pt.Broker.Manage.Existing.Freed.{
  Appends, opens_listed, iterate_box-invalid, first_named-inside,
}

-- "4 -1 Can't create box, already exists"
abbrev pub box_rejected : List ℕ
box_rejected = 52 ∷ 32 ∷ 45 ∷ 49 ∷ 32 ∷ already_exists

rejected_text : serialize_answer answer_create_box minus_one already_exists ≡ done box_rejected
unfolding serialize_answer show_int show_nat emit
rejected_text = refl

answer-rejected :
    (world : World) (fd : ℤ) (s : Broker)
    → ((bytes : List ℕ) → world.accepts fd bytes ≡ true)
    → answer world fd minus_one already_exists s
      ≡ finished (
        tt,
        record s { events = s.events ++ (sent fd (request_bytes world.behind box_rejected) ∷ []) },
      )
unfolding answer send_request
answer-rejected world fd s takes =
    rw (rejected_text, takes (request_bytes world.behind box_rejected), answer) refl

pub free_box-eq :
    (p : ℕ) (b : Box) (s : Broker)
    → s.heap p ≡ some b
    → free_box p s ≡ finished (tt, record s { heap = put s.heap p none })
unfolding free_box
free_box-eq p b s e = rw (e, free_box) refl

-- A box of the list with a file in the directory, and a free handle for the file.
pub record IsStanding (xs : List ℕ) (s : Broker) (box_name : List ℕ) (p : ℕ) (b : Box) (first : ℕ)
    (rest : List ℕ) : Type 0 where
  pub found : first_named s.heap xs box_name ≡ some p
  pub contents : s.heap p ≡ some b
  pub is_path : box_name ≡ slash ∷ first ∷ rest
  pub inumber : ℕ
  pub linked : lookup (root_entries 0 s.fs) (first ∷ rest) ≡ pos inumber
  pub free_handle : ℕ
  pub is_free : get_elem? s.fs.free_open_file_entries free_handle ≡ some free

module _ (world : World) {xs : List ℕ} {s : Broker} (box_name : List ℕ) (p : ℕ) (b : Box) (fd : ℤ)
    (fresh : GivesFresh world) (ok : IsBroker xs s)
    (takes : (bytes : List ℕ) → world.accepts fd bytes ≡ true) where
  reject_box-eq :
      (opened : State) (k : ℕ)
      → with_box world s.heap (world.malloc s.heap) p ≡ some b
      → IsSound 0 opened
      → opened.mutex_locked ≡ false
      → get_elem? opened.free_open_file_entries k ≡ some taken
      → reject_box world fd p
          (pos k)
          (record s { fs = opened; heap = with_box world s.heap (world.malloc s.heap) })
        ≡ finished (
          tt,
          record s {
            fs = closed_at opened k;
            heap = put (with_box world s.heap (world.malloc s.heap)) p none;
            events = s.events ++ (sent fd (request_bytes world.behind box_rejected) ∷ []);
          },
        )
  unfolding reject_box
  reject_box-eq opened k kept sound unlocked is_open =
      let (closes, sound', closed) = tfs_close-closes k sound unlocked is_open in
      continue-eq
        (free_box p (record s { fs = opened; heap = with_box world s.heap (world.malloc s.heap) }))
        _ tt _ (free_box-eq p b _ kept)
      ∙ continue-eq _ _ (pos 0)
          (record s {
            fs = closed_at opened k;
            heap = put (with_box world s.heap (world.malloc s.heap)) p none;
          })
          (calls-eq (tfs_close (pos k)) _ (pos 0) (closed_at opened k) closes)
      ∙ continue-eq _ _ tt _ (answer-rejected world fd _ takes)
      ∙ continue-eq _ _ minus_one _ (
          calls-eq (tfs_close (pos k)) _ minus_one (closed_at opened k)
            (closed_handle sound' unlocked (pos k) closed).0)

iterate-undefined :
    (world : World) (h : Heap) (xs : List ℕ) (p : ℕ) (s : Broker)
    → s.heap ≡ put h p none
    → IsChain h s.head xs
    → (IsOutside p xs → ⊥)
    → length xs ≤ world.rounds
    → iterate world s ≡ undefined
unfolding iterate
iterate-undefined world h xs p s e c inside l = ground (
  arith,
  ap (λ h. iterate_box world.rounds h s.head) e
      ∙ iterate_box-invalid world.rounds h s.head xs p c inside l,
)

remove_box-undefined :
    (world : World) (request : Request) (s : Broker)
    → iterate world s ≡ undefined
    → remove_box world request s ≡ undefined
unfolding remove_box
remove_box-undefined world request s e = continue-undefined (iterate world s) _ e

is_existing-open : (k p : ℕ) (s : Broker) → is_existing (pos k) p s ≡ finished (true, s)
unfolding is_existing
is_existing-open k p s = refl

-- What a request for an existing box leaves.
pub record Rejected (world : World) (s : Broker) (fd : ℤ) (p : ℕ) (o : Run (Unit {0} × Broker))
    : Type 0 where
  pub result : Broker
  pub returns : o ≡ finished (tt, result)
  pub sound : IsSound 0 result.fs
  pub same_directory : root_entries 0 result.fs ≡ root_entries 0 s.fs
  pub says_so : result.events ≡ s.events ++ (sent fd (request_bytes world.behind box_rejected) ∷ [])
  pub same_head : result.head ≡ s.head
  pub freed : result.heap p ≡ none
  pub broken : (request : Request) → remove_box world request result ≡ undefined

-- Between two requests, let there be a request to create a box of the list, whose file is in the
-- directory; let the pipe of the client open and take what is written, let a handle be free, and
-- let there be a round for each box of the list. Then `create_box` sends the client the answer "4 -1
-- Can't create box, already exists", and keeps the directory and a sound file system. But it frees
-- the box, to which the list still leads: the next request to remove any box reads freed memory.
pub create_box-Rejected :
    (world : World) {xs : List ℕ} {s : Broker} (request : Request) (p : ℕ) (b : Box) (first : ℕ)
    (rest : List ℕ)
    → GivesFresh world
    → IsBroker xs s
    → length xs ≤ world.rounds
    → is_minus_one (world.open_pipe request.client_pipe) ≡ false
    → ((bytes : List ℕ) → world.accepts (world.open_pipe request.client_pipe) bytes ≡ true)
    → IsStanding xs s request.box_name p b first rest
    → Rejected world s (world.open_pipe request.client_pipe) p (create_box world request s)
unfolding create_box
create_box-Rejected world {xs} {s} request p b first rest fresh ok enough opens takes standing =
    record {
      result = _;
      returns =
          rw (opens, create_box)
            (continue-eq _ _ p after_find
                (find-found world fresh ok enough request.box_name p standing.found)
              ∙ continue-eq _ _ (pos file.number) (record after_find { fs = file.opened })
                  (calls-eq (tfs_open (some request.box_name) tfs_o_append) after_find
                    (pos file.number) file.opened (rw standing.is_path file.opens))
              ∙ continue-eq _ _ true _
                  (is_existing-open file.number p (record after_find { fs = file.opened }))
              ∙ reject_box-eq world request.box_name p b (world.open_pipe request.client_pipe) fresh
                  ok takes file.opened file.number kept file.sound file.unlocked file.is_open);
      sound = (tfs_close-closes file.number file.sound file.unlocked file.is_open).1;
      same_directory = file.same_directory;
      says_so = refl;
      same_head = refl;
      freed = put_same _ p none;
      broken = λ request'. remove_box-undefined world request' _ (
          iterate-undefined world (with_box world s.heap (world.malloc s.heap)) xs p _ refl
            (with_box-IsBroker world fresh ok enough request.box_name).chain
            (first_named-inside s.heap xs request.box_name p standing.found) enough);
    }
  where
    after_find : Broker
    after_find = record s { heap = with_box world s.heap (world.malloc s.heap) }

    file : Appends s.fs (path_to first rest)
    file =
        opens_listed s.fs first rest standing.inumber standing.free_handle ok.sound ok.unlocked
          standing.linked standing.is_free

    kept : with_box world s.heap (world.malloc s.heap) p ≡ some b
    kept = with_box-kept world s.heap (world.malloc s.heap) p b (fresh s.heap) standing.contents
