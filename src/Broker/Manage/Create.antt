-- ===== src/Broker/Manage/Create.antt =====
-- A request for a new box, in `create_box` of mbroker/mbroker.c.
pub mod Add
use t_cnico_file_system_pt.Prelude.{◌⊎◌, inl, inr, set, set-set, set_same}
use t_cnico_file_system_pt.State.Tables.FirstFree.{AllTaken}
use t_cnico_file_system_pt.State.Dir.Listing.{has_room}
use t_cnico_file_system_pt.Prelude.{
  ℕ, ◌≤◌, ◌<◌, ◌≡◌, ◌≢◌, refl, sym, ap, ◌∙◌, arith, ℤ, pos, minus_one, is_minus_one, List, [], ◌∷◌,
  ◌++◌, not, true, false, Option, none, some, get_elem?, get_elem?-set_self, get_elem?_bound,
  length,
}
use t_cnico_file_system_pt.State.Types.{State, done, free, taken}
use t_cnico_file_system_pt.State.Dir.Listing.{lookup, insert}
use t_cnico_file_system_pt.State.Dir.Laws.{IsFileName}
use t_cnico_file_system_pt.Invariant.Defs.{IsSound, root_entries}
use t_cnico_file_system_pt.Invariant.Changes.{set_mutex}
use t_cnico_file_system_pt.Invariant.Calls.{put_open_file}
use t_cnico_file_system_pt.Operations.Open.{tfs_open, tfs_close, slash}
use t_cnico_file_system_pt.Operations.Open.Handle.{table_full, handle}
use t_cnico_file_system_pt.Operations.Open.Existing.{tfs_open-missing}
use t_cnico_file_system_pt.Operations.Open.Create.{
  Creates, no_inode, no_entry, created, tfs_open-Creates,
}
use t_cnico_file_system_pt.Operations.Open.Close.{tfs_close-closes, closed_at}
use t_cnico_file_system_pt.Boxes.{Box, Heap, put, returned, insert_box}
use t_cnico_file_system_pt.Boxes.Chain.{
  IsChain, IsOutside, IsSimple, first_named, put_other, put_same, IsChain-put,
}
use t_cnico_file_system_pt.Boxes.Insert.{SameBoxes, contents, insert_box-appends}
use t_cnico_file_system_pt.Text.{show_int, show_nat, emit}
use t_cnico_file_system_pt.Messages.{
  Request, fits_array, request_bytes, box_name_size, serialize_answer, answer_create_box,
}
use t_cnico_file_system_pt.Clients.{sent}
use t_cnico_file_system_pt.Broker.{
  Broker, World, Run, finished, pure, load_box, answer, send_request,
}
use t_cnico_file_system_pt.Broker.Post.{calls-eq, walks-eq, continue-eq, load_box-eq, store_box-eq}
use t_cnico_file_system_pt.Broker.Find.{
  GivesFresh, IsBroker, put-IsBroker, missing_box, find-missing, IsOutside-none,
}
use t_cnico_file_system_pt.Broker.Manage.{
  create_box, is_existing, add_box, name_box, tfs_o_creat, tfs_o_append,
}
use t_cnico_file_system_pt.Broker.Manage.Create.Add.{accepted_text, named_box, add_box-Added, Added}

-- A box that is not in the list, and has no file.
pub record IsUnlisted (world : World) (xs : List ℕ) (s : Broker) (box_name : List ℕ) (u first : ℕ)
    (rest : List ℕ) : Type 0 where
  pub not_found : first_named s.heap xs box_name ≡ none
  pub fits : length box_name < box_name_size
  pub allocated : world.malloc s.heap ≡ some u
  pub is_path : box_name ≡ slash ∷ first ∷ rest
  pub file_name : IsFileName (first ∷ rest)
  pub unlinked : lookup (root_entries 0 s.fs) (first ∷ rest) ≡ minus_one

-- What stays of the heap and the handles beside the box at `u`.
pub record Keeps (s : Broker) (u : ℕ) (s' : Broker) : Type 0 where
  pub boxes : (x : ℕ) → x ≢ u → contents (s'.heap x) ≡ contents (s.heap x)
  pub handles : s'.fs.free_open_file_entries ≡ s.fs.free_open_file_entries

-- How the broker ends such a request: the file cannot be made or not be opened, there is no answer
-- and the list is as before; or the box is the last one, without sessions, its file is in the
-- directory, and the answer says so.
pub data Adds (world : World) (xs : List ℕ) (s : Broker) (fd : ℤ) (u : ℕ) (name : List ℕ)
    (o : Run (Unit {0} × Broker)) : Type 0 where
  no_file :
      (s' : Broker)
      → AllTaken s.fs.max_inode_count s.fs.freeinode_ts ⊎ (has_room (root_entries 0 s.fs) ≡ false)
      → o ≡ finished (tt, s')
      → IsBroker xs s'
      → Keeps s u s'
      → root_entries 0 s'.fs ≡ root_entries 0 s.fs
      → s'.events ≡ s.events
      → Adds world xs s fd u name o
  no_handle :
      (s' : Broker)
      → ((h : ℕ) → get_elem? s.fs.free_open_file_entries h ≢ some free)
      → o ≡ finished (tt, s')
      → IsBroker xs s'
      → s'.events ≡ s.events
      → Adds world xs s fd u name o
  added :
      (s' : Broker) (i : ℕ)
      → o ≡ finished (tt, s')
      → IsBroker (xs ++ (u ∷ [])) s'
      → contents (s'.heap u) ≡ some (slash ∷ name, pos 0, pos 0)
      → Keeps s u s'
      → has_room (root_entries 0 s.fs) ≡ true
      → get_elem? s.fs.freeinode_ts i ≡ some free
      → root_entries 0 s'.fs ≡ insert (root_entries 0 s.fs) name (pos i)
      → s'.events ≡ s.events ++ (sent fd (request_bytes world.behind accepted_text) ∷ [])
      → Adds world xs s fd u name o

-- The heap after `find_box`, and after the name is set.
abbrev pub found_heap : World → Heap → ℕ → Heap
found_heap world h u = put (put h u (some world.garbage)) u (some (missing_box world))

abbrev named_heap : World → Heap → ℕ → List ℕ → Heap
named_heap world h u name = put (found_heap world h u) u (some (named_box world name))

-- The file could not be opened.
add_box-unopened :
    (world : World) (fd : ℤ) (u : ℕ) (name : List ℕ) (s : Broker) (fs : State)
    → tfs_open (some name) tfs_o_creat s.fs ≡ done (minus_one, fs)
    → add_box world fd u name s ≡ finished (tt, record s { fs = fs })
unfolding add_box
add_box-unopened world fd u name s fs e =
    continue-eq _ _ minus_one (record s { fs = fs })
      (calls-eq (tfs_open (some name) tfs_o_creat) s minus_one fs e)

is_existing-new :
    (p : ℕ) (b : Box) (s : Broker)
    → s.heap p ≡ some b
    → b.has_writer ≡ minus_one
    → is_existing minus_one p s ≡ finished (false, s)
unfolding is_existing
is_existing-new p b s e w =
    continue-eq (load_box p s) (λ b. pure (not (is_minus_one b.has_writer))) b s
      (load_box-eq p b s e)
    ∙ rw w refl

-- A handle that is opened and closed is as before.
pub reclosed :
    (fs : State) (k : ℕ)
    → get_elem? fs.free_open_file_entries k ≡ some free
    → set (set fs.free_open_file_entries k taken) k free ≡ fs.free_open_file_entries
reclosed fs k g =
    set-set fs.free_open_file_entries k taken free ∙ set_same fs.free_open_file_entries k free g

module _ (world : World) {xs : List ℕ} {s : Broker} (request : Request) (fd u first : ℕ)
    (rest : List ℕ) (fresh : GivesFresh world) (ok : IsBroker xs s)
    (enough : length xs ≤ world.rounds) (opens : world.open_pipe request.client_pipe ≡ pos fd)
    (new : IsUnlisted world xs s request.box_name u first rest)
    (takes : (bytes : List ℕ) → world.accepts (pos fd) bytes ≡ true) where
  abbrev after_find : Broker
  after_find = record s { heap = found_heap world s.heap u }

  outside : IsOutside u xs
  outside = IsOutside-none s.heap s.head xs u ok.chain (fresh s.heap u new.allocated)

  after_find-IsBroker : IsBroker xs (record s { heap = found_heap world s.heap u })
  after_find-IsBroker =
      put-IsBroker (record s { heap = put s.heap u (some world.garbage) }) xs u
        (some (missing_box world)) (put-IsBroker s xs u (some world.garbage) ok outside) outside

  found_boxes : (x : ℕ) → x ≢ u → contents (found_heap world s.heap u x) ≡ contents (s.heap x)
  found_boxes x n = ap contents (put_other _ u x _ n ∙ put_other s.heap u x _ n)

  unopened : tfs_open (some request.box_name) tfs_o_append s.fs ≡ done (minus_one, s.fs)
  unopened = rw new.is_path (tfs_open-missing first rest 4 ok.sound ok.unlocked new.unlinked refl)

  create_box-add :
      create_box world request s
      ≡ add_box world (pos fd) u request.box_name (record s { heap = found_heap world s.heap u })
  unfolding create_box
  create_box-add =
      rw (opens, create_box)
        (continue-eq _ _ u _
            (find-missing world fresh ok enough request.box_name u new.allocated new.not_found)
          ∙ continue-eq _ _ minus_one _ (
              calls-eq (tfs_open (some request.box_name) tfs_o_append)
                (record s { heap = found_heap world s.heap u }) minus_one s.fs unopened)
          ∙ continue-eq _ _ false _ (
              is_existing-new u (missing_box world) (record s { heap = found_heap world s.heap u })
                (put_same _ u _) refl))

  create_box-cases :
      Creates 0 s.fs (first ∷ rest) (tfs_open (some request.box_name) tfs_o_creat s.fs)
      → Adds world xs s (pos fd) u (first ∷ rest) (create_box world request s)
  create_box-cases (no_inode all eq) =
      no_file _ (inl all)
        (create_box-add ∙ add_box-unopened world (pos fd) u request.box_name _ _ eq)
        (record {
          sound = set_mutex false ok.sound;
          unlocked = refl;
          chain = after_find-IsBroker.chain;
          simple = ok.simple;
        })
        (record { boxes = found_boxes; handles = refl }) refl refl
  create_box-cases (no_entry fs room eq sound same states unlocked handles) =
      no_file _ (inr room)
        (create_box-add ∙ add_box-unopened world (pos fd) u request.box_name _ fs eq)
        (record {
          sound = sound;
          unlocked = unlocked;
          chain = after_find-IsBroker.chain;
          simple = ok.simple;
        })
        (record { boxes = found_boxes; handles = handles }) same refl
  create_box-cases
        (created i fs room f before sound listed inode states handles (table_full all eq sound')) =
      no_handle _
        (λ h g. ground (
          arith,
          ap (λ t. get_elem? t h) handles ∙ g,
          all h (
              omega (
                arith,
                get_elem?_bound fs.free_open_file_entries h free
                    (ap (λ t. get_elem? t h) handles ∙ g),
                sound.shape.open_file_states,
              )),
        ))
        (create_box-add ∙ add_box-unopened world (pos fd) u request.box_name _ _ eq)
        (record {
          sound = sound';
          unlocked = refl;
          chain = after_find-IsBroker.chain;
          simple = ok.simple;
        })
        refl
  create_box-cases
        (created i fs room f before sound listed inode states handles (handle k g all eq sound')) =
      let (s', eq', same_fs, ok', box, boxes, sent_it) =
        add_box-Added world request.box_name u fd k
          (record (put_open_file (pos i) 0 k fs) { mutex_locked = false }) after_find-IsBroker
          (put_same _ u _) outside enough new.fits takes eq sound' refl
          (get_elem?-set_self fs.free_open_file_entries k taken
            (get_elem?_bound fs.free_open_file_entries k free g)) in
      added s' i (create_box-add ∙ eq') ok' (box ∙ ap (λ n. some (n, pos 0, pos 0)) new.is_path)
        (record {
          boxes = λ x n. boxes x n ∙ found_boxes x n;
          handles = ap State.free_open_file_entries same_fs ∙ reclosed fs k g ∙ handles;
        })
        room f (ap (root_entries 0) same_fs ∙ listed) sent_it

-- Between two requests, let there be a request for a new box: no box of the list has its name, the
-- name is a slash and a file name, fits the array of the name, and is not in the directory. Let
-- `malloc` give the box, let the pipe of the client open and take what is written, and let there be
-- a round for each box of the list. Then `create_box` returns, in one of two ways. The box is
-- added: it is the last of the list, with the name, no publisher and no subscriber, the other boxes
-- hold what they held, an inode was free and the directory had room, it lists the inode under the
-- name, and the client is sent the answer "4 0 ". Or the box is not added, and nothing is sent to
-- the client: no inode was free or the directory had no room, and the boxes and the directory are as
-- before, or no handle was free. In all cases the file system is sound and unlocked, and `head`
-- leads to the list; but for the last case, the handles are free or taken as before.
pub create_box-Adds :
    (world : World) {xs : List ℕ} {s : Broker} (request : Request) (fd u first : ℕ) (rest : List ℕ)
    → GivesFresh world
    → IsBroker xs s
    → length xs ≤ world.rounds
    → world.open_pipe request.client_pipe ≡ pos fd
    → ((bytes : List ℕ) → world.accepts (pos fd) bytes ≡ true)
    → IsUnlisted world xs s request.box_name u first rest
    → Adds world xs s (pos fd) u (first ∷ rest) (create_box world request s)
create_box-Adds world {xs} {s} request fd u first rest fresh ok enough opens takes new =
    create_box-cases world request fd u first rest fresh ok enough opens new takes (
      rw new.is_path
        (tfs_open-Creates first rest 1 ok.sound ok.unlocked new.file_name new.unlinked refl))
