-- ===== src/Broker/Manage/Removal.antt =====
-- A request to remove a box, in `remove_box` of mbroker/mbroker.c.
pub mod Rest
use t_cnico_file_system_pt.Prelude.{◌≢◌}
use t_cnico_file_system_pt.Boxes.Insert.{contents}
use t_cnico_file_system_pt.Prelude.{
  ℕ, zero, suc, ◌≤◌, ◌≡◌, refl, sym, ap, ◌∙◌, arith, ℤ, pos, is_minus_one, List, [], ◌∷◌, ◌++◌,
  true, false, Bool-cases, inl, inr, Option, none, some, length,
}
use mathlib.Core.Path.{subst}
use t_cnico_file_system_pt.State.Types.{State, done}
use t_cnico_file_system_pt.State.Dir.Listing.{lookup, remove, IsCString}
use t_cnico_file_system_pt.Invariant.Defs.{IsSound, root_entries}
use t_cnico_file_system_pt.Operations.Open.{tfs_open, tfs_close, slash}
use t_cnico_file_system_pt.Operations.Open.Close.{tfs_close-closes, closed_at}
use t_cnico_file_system_pt.Operations.Unlink.{tfs_unlink}
use t_cnico_file_system_pt.Operations.Unlink.Effect.{tfs_unlink-removes, Unlinked}
use t_cnico_file_system_pt.Boxes.{Box, Heap, put, returned, iterate_box, delete_box}
use t_cnico_file_system_pt.Boxes.Chain.{
  IsChain, IsOutside, IsSimple, first_named, has_name, put_other,
}
use t_cnico_file_system_pt.Boxes.Delete.{delete_box-Deleted, without_first}
use t_cnico_file_system_pt.Messages.{Request, request_bytes}
use t_cnico_file_system_pt.Clients.{sent, closed}
use t_cnico_file_system_pt.Broker.{Broker, World, Run, finished, pure, iterate}
use t_cnico_file_system_pt.Broker.Post.{calls-eq, continue-eq, load_box-eq, walks-eq}
use t_cnico_file_system_pt.Broker.Find.{
  GivesFresh, IsBroker, with_box, with_box-kept, with_box-first_named, find-found,
  with_box-IsBroker, IsOutside-none,
}
use t_cnico_file_system_pt.Broker.Manage.{remove_box, is_missing, drop_box, tfs_o_append}
use t_cnico_file_system_pt.Broker.Manage.Create.Add.{answer-accepted, accepted_text}
use t_cnico_file_system_pt.Broker.Manage.Existing.{IsStanding}
use t_cnico_file_system_pt.Broker.Manage.Existing.Freed.{Appends, opens_listed}
use t_cnico_file_system_pt.Broker.Manage.Removal.Rest.{
  iterate-eq, without_first-IsSimple, length-without_first, without_first-with_box,
}

is_missing-false :
    (k p : ℕ) (b : Box) (s : Broker)
    → s.heap p ≡ some b
    → is_minus_one b.n_readers ≡ false
    → is_missing (pos k) p s ≡ finished (false, s)
unfolding is_missing
is_missing-false k p b s e readers =
    continue-eq _ (λ b. pure (is_minus_one b.n_readers)) b s (load_box-eq p b s e)
    ∙ ap (λ t. finished (t, s)) readers

-- A box is dropped where its file is open and can be unlinked.
drop_box-eq :
    (world : World) (s : Broker) (fd : ℤ) (p k : ℕ) (b : Box) (box_name : List ℕ) (fs : State)
    (head' : Option ℕ) (h' : Heap)
    → s.heap p ≡ some b
    → delete_box world.rounds s.heap b.box_name s.head ≡ returned (head', h')
    → tfs_close (pos k) s.fs ≡ done (pos 0, closed_at s.fs k)
    → tfs_unlink (some box_name) (closed_at s.fs k) ≡ done (pos 0, fs)
    → ((bytes : List ℕ) → world.accepts fd bytes ≡ true)
    → drop_box world fd p (pos k) box_name s
      ≡ finished (
        tt,
        record {
          fs = fs;
          heap = h';
          head = head';
          events = s.events ++ (sent fd (request_bytes world.behind accepted_text) ∷ []);
        },
      )
unfolding drop_box
drop_box-eq world s fd p k b box_name fs head' h' at deleted closes unlinks takes =
    continue-eq _ _ b s (load_box-eq p b s at)
    ∙ continue-eq _ _ tt after_delete (
        walks-eq (λ s. delete_box world.rounds s.heap b.box_name s.head)
          (λ s r. (tt, record s { head = r.0; heap = r.1 })) s (head', h') deleted)
    ∙ continue-eq _ _ (pos 0) (record after_delete { fs = closed_at s.fs k })
        (calls-eq (tfs_close (pos k)) after_delete (pos 0) (closed_at s.fs k) closes)
    ∙ continue-eq _ _ (pos 0) (record after_delete { fs = fs })
        (calls-eq (tfs_unlink (some box_name)) (record after_delete { fs = closed_at s.fs k })
          (pos 0) fs unlinks)
    ∙ answer-accepted world fd (record after_delete { fs = fs }) takes
  where
    after_delete : Broker
    after_delete = record s { head = head'; heap = h' }

-- What a request to remove the box at `p` leaves.
pub record Removed (world : World) (xs : List ℕ) (s : Broker) (fd : ℤ) (p : ℕ) (name : List ℕ)
    (o : Run (Unit {0} × Broker)) : Type 0 where
  pub result : Broker
  pub returns : o ≡ finished (tt, result)
  pub in_order : IsBroker (without_first s.heap xs (slash ∷ name)) result
  pub freed : result.heap p ≡ none
  pub others :
      (x : ℕ) (b : Box) → s.heap x ≡ some b → x ≢ p → contents (result.heap x) ≡ contents (s.heap x)
  pub same_handles : result.fs.free_open_file_entries ≡ s.fs.free_open_file_entries
  pub unlisted : root_entries 0 result.fs ≡ remove (root_entries 0 s.fs) name
  pub says_so :
      result.events
      ≡ (s.events ++ (sent fd (request_bytes world.behind accepted_text) ∷ [])) ++ (closed fd ∷ [])

module _ (world : World) {xs : List ℕ} {s : Broker} (request : Request) (p : ℕ) (b : Box)
    (first : ℕ) (rest : List ℕ) (fresh : GivesFresh world) (ok : IsBroker xs s)
    (enough : length xs ≤ world.rounds)
    (opens : is_minus_one (world.open_pipe request.client_pipe) ≡ false)
    (takes : (bytes : List ℕ) → world.accepts (world.open_pipe request.client_pipe) bytes ≡ true)
    (standing : IsStanding xs s request.box_name p b first rest)
    (readers : is_minus_one b.n_readers ≡ false) where
  abbrev after_find : Broker
  after_find = record s { heap = with_box world s.heap (world.malloc s.heap) }

  kept : with_box world s.heap (world.malloc s.heap) p ≡ some b
  kept = with_box-kept world s.heap (world.malloc s.heap) p b (fresh s.heap) standing.contents

  remaining :
      without_first (with_box world s.heap (world.malloc s.heap)) xs request.box_name
      ≡ without_first s.heap xs request.box_name
  remaining =
      without_first-with_box world s.heap s.head (world.malloc s.heap) xs request.box_name ok.chain
        (fresh s.heap)

  remove_box-eq :
      (file : Appends s.fs (some request.box_name)) (t : Broker) (ys : List ℕ)
      → drop_box world
          (world.open_pipe request.client_pipe)
          p
          (pos file.number)
          request.box_name
          (record s { fs = file.opened; heap = with_box world s.heap (world.malloc s.heap) })
        ≡ finished (tt, t)
      → IsChain t.heap t.head ys
      → length ys ≤ world.rounds
      → remove_box world request s
        ≡ finished (
          tt,
          record t { events = t.events ++ (closed (world.open_pipe request.client_pipe) ∷ []) },
        )
  unfolding remove_box
  remove_box-eq file t ys drops c l =
      continue-eq _ _ tt s (iterate-eq world s xs ok.chain enough)
      ∙ rw (opens, remove_box)
          (continue-eq _ _ p (record s { heap = with_box world s.heap (world.malloc s.heap) })
              (find-found world fresh ok enough request.box_name p standing.found)
            ∙ continue-eq _ _ (pos file.number)
                (record s { fs = file.opened; heap = with_box world s.heap (world.malloc s.heap) })
                (calls-eq (tfs_open (some request.box_name) tfs_o_append)
                  (record s { heap = with_box world s.heap (world.malloc s.heap) })
                  (pos file.number) file.opened file.opens)
            ∙ continue-eq _ _ false _ (is_missing-false file.number p b _ kept readers)
            ∙ continue-eq _ _ tt t drops
            ∙ continue-eq _ _ tt t (iterate-eq world t ys c l))

  file : Appends s.fs (some request.box_name)
  file =
      subst (λ n. Appends s.fs (some n)) (sym standing.is_path)
        (opens_listed s.fs first rest standing.inumber standing.free_handle ok.sound ok.unlocked
          standing.linked standing.is_free)

  found_order : IsBroker xs (record s { heap = with_box world s.heap (world.malloc s.heap) })
  found_order = with_box-IsBroker world fresh ok enough request.box_name

  named_first :
      b.box_name ≡ request.box_name
      → first_named (with_box world s.heap (world.malloc s.heap)) xs b.box_name ≡ some p
  named_first named =
      ap (first_named (with_box world s.heap (world.malloc s.heap)) xs) named
      ∙ with_box-first_named world fresh ok enough request.box_name (world.malloc s.heap) refl
      ∙ standing.found

  unlinks :
      (fs : State)
      → IsSound 0 fs
      → fs.mutex_locked ≡ false
      → root_entries 0 fs ≡ root_entries 0 s.fs
      → IsCString (first ∷ rest)
      → (fs' : State) × (tfs_unlink (some request.box_name) fs ≡ done (pos 0, fs'))
        × Unlinked 0 fs (first ∷ rest) fs'
  unlinks fs sound unlocked same string =
      let (fs', e, u) = tfs_unlink-removes first rest sound unlocked string (λ e.
        ground (arith, sym standing.linked ∙ ap (λ es. lookup es (first ∷ rest)) (sym same) ∙ e)) in
      (fs', ap (λ n. tfs_unlink (some n) fs) standing.is_path ∙ e, u)

  removed :
      IsCString (first ∷ rest)
      → b.box_name ≡ request.box_name
      → Removed world xs s
          (world.open_pipe request.client_pipe)
          p
          (first ∷ rest)
          (remove_box world request s)
  removed string named =
      let (closes, sound, c) = tfs_close-closes file.number file.sound file.unlocked file.is_open in
      let (fs, u, unlinked) =
        unlinks (closed_at file.opened file.number) sound file.unlocked file.same_directory
          string in
      let (head', h', e, del) =
        delete_box-Deleted world.rounds (with_box world s.heap (world.malloc s.heap)) b.box_name
          s.head xs found_order.chain ok.simple enough in
      let chain : IsChain h' head' (without_first s.heap xs (slash ∷ first ∷ rest)) =
        subst (IsChain h' head')
          (ap (without_first (with_box world s.heap (world.malloc s.heap)) xs) named
            ∙ remaining
            ∙ ap (without_first s.heap xs) standing.is_path)
          del.chain in
      record {
        result = _;
        returns =
            remove_box-eq file
              (record {
                fs = fs;
                heap = h';
                head = head';
                events =
                    s.events
                    ++ (sent (world.open_pipe request.client_pipe)
                          (request_bytes world.behind accepted_text)
                        ∷ []);
              })
              (without_first s.heap xs (slash ∷ first ∷ rest))
              (drop_box-eq world _ (world.open_pipe request.client_pipe) p file.number b
                request.box_name fs head' h' kept e closes u takes)
              chain (omega (arith, enough, length-without_first s.heap xs (slash ∷ first ∷ rest)));
        in_order = record {
          sound = unlinked.sound;
          unlocked = unlinked.unlocked;
          chain = chain;
          simple = without_first-IsSimple s.heap xs (slash ∷ first ∷ rest) ok.simple;
        };
        freed = del.freed p (named_first named);
        others = λ x bx e n.
            del.others x (λ z. n (ground (arith, sym z ∙ named_first named)))
            ∙ ap contents
                (with_box-kept world s.heap (world.malloc s.heap) x bx (fresh s.heap) e ∙ sym e);
        same_handles = unlinked.same_handles ∙ file.same_handles;
        unlisted = unlinked.listed ∙ ap (λ es. remove es (first ∷ rest)) file.same_directory;
        says_so = refl;
      }

-- Between two requests, let there be a request to remove a box of the list, whose file is in the
-- directory under a C string; let the pipe of the client open and take what is written, let a
-- handle be free, let there be a round for each box of the list, and let the count of the box's
-- subscribers not be -1. Then `remove_box` returns. The list is without the first box of that name,
-- which is freed, and the other boxes hold what they held; the directory is without the file; the
-- client is sent the answer "4 0 ", and its pipe is closed. The file system is sound and unlocked,
-- the handles are free or taken as before, and `head` leads to the rest of the list.
pub remove_box-Removed :
    (world : World) {xs : List ℕ} {s : Broker} (request : Request) (p : ℕ) (b : Box) (first : ℕ)
    (rest : List ℕ)
    → GivesFresh world
    → IsBroker xs s
    → length xs ≤ world.rounds
    → is_minus_one (world.open_pipe request.client_pipe) ≡ false
    → ((bytes : List ℕ) → world.accepts (world.open_pipe request.client_pipe) bytes ≡ true)
    → IsStanding xs s request.box_name p b first rest
    → IsCString (first ∷ rest)
    → b.box_name ≡ request.box_name
    → is_minus_one b.n_readers ≡ false
    → Removed world xs s
        (world.open_pipe request.client_pipe)
        p
        (first ∷ rest)
        (remove_box world request s)
remove_box-Removed world request p b first rest fresh ok enough opens takes standing string named
      readers =
    removed world request p b first rest fresh ok enough opens takes standing readers string named
