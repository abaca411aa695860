-- ===== src/Broker/Manage/Missing.antt =====
-- A request to remove a box that is not there, in `remove_box` of mbroker/mbroker.c.
use t_cnico_file_system_pt.Prelude.{
  ℕ, ◌≤◌, ◌≡◌, ◌≢◌, refl, ◌∙◌, ℤ, minus_one, is_minus_one, List, [], ◌∷◌, ◌++◌, true, false, none,
  some, length,
}
use t_cnico_file_system_pt.State.Types.{done}
use t_cnico_file_system_pt.Operations.Open.{tfs_open}
use t_cnico_file_system_pt.Operations.Open.Existing.{tfs_open-missing}
use t_cnico_file_system_pt.Boxes.{put}
use t_cnico_file_system_pt.Boxes.Chain.{IsOutside, put_same, put_other}
use t_cnico_file_system_pt.Text.{show_int, show_nat, emit}
use t_cnico_file_system_pt.Messages.{Request, request_bytes, serialize_answer, answer_create_box}
use t_cnico_file_system_pt.Clients.{sent, closed}
use t_cnico_file_system_pt.Broker.{Broker, World, Run, finished, answer, send_request}
use t_cnico_file_system_pt.Broker.Post.{calls-eq, continue-eq}
use t_cnico_file_system_pt.Broker.Find.{
  GivesFresh, IsBroker, put-IsBroker, missing_box, find-missing, IsOutside-none,
}
use t_cnico_file_system_pt.Broker.Manage.{remove_box, is_missing, does_not_exist, tfs_o_append}
use t_cnico_file_system_pt.Broker.Manage.Create.{IsUnlisted, found_heap}
use t_cnico_file_system_pt.Broker.Manage.Existing.{free_box-eq}
use t_cnico_file_system_pt.Broker.Manage.Removal.Rest.{iterate-eq}

-- "4 -1 Box doesn't exist\n"
abbrev pub missing_text : List ℕ
missing_text = 52 ∷ 32 ∷ 45 ∷ 49 ∷ 32 ∷ does_not_exist

missing-eq : serialize_answer answer_create_box minus_one does_not_exist ≡ done missing_text
unfolding serialize_answer show_int show_nat emit
missing-eq = refl

answer-missing :
    (world : World) (fd : ℤ) (s : Broker)
    → ((bytes : List ℕ) → world.accepts fd bytes ≡ true)
    → answer world fd minus_one does_not_exist s
      ≡ finished (
        tt,
        record s { events = s.events ++ (sent fd (request_bytes world.behind missing_text) ∷ []) },
      )
unfolding answer send_request
answer-missing world fd s takes =
    rw (missing-eq, takes (request_bytes world.behind missing_text), answer) refl

is_missing-true : (p : ℕ) (s : Broker) → is_missing minus_one p s ≡ finished (true, s)
unfolding is_missing
is_missing-true p s = refl

-- What such a request leaves: the new box of `find_box` at `u` is freed again.
pub record NotThere (world : World) (xs : List ℕ) (s : Broker) (fd : ℤ) (u : ℕ)
    (o : Run (Unit {0} × Broker)) : Type 0 where
  pub result : Broker
  pub returns : o ≡ finished (tt, result)
  pub in_order : IsBroker xs result
  pub freed : result.heap u ≡ none
  pub same_boxes : (x : ℕ) → x ≢ u → result.heap x ≡ s.heap x
  pub same_files : result.fs ≡ s.fs
  pub says_so :
      result.events
      ≡ (s.events ++ (sent fd (request_bytes world.behind missing_text) ∷ [])) ++ (closed fd ∷ [])

module _ (world : World) {xs : List ℕ} {s : Broker} (request : Request) (u first : ℕ)
    (rest : List ℕ) (fresh : GivesFresh world) (ok : IsBroker xs s)
    (enough : length xs ≤ world.rounds)
    (opens : is_minus_one (world.open_pipe request.client_pipe) ≡ false)
    (takes : (bytes : List ℕ) → world.accepts (world.open_pipe request.client_pipe) bytes ≡ true)
    (new : IsUnlisted world xs s request.box_name u first rest) where
  outside : IsOutside u xs
  outside = IsOutside-none s.heap s.head xs u ok.chain (fresh s.heap u new.allocated)

  abbrev answered : Broker
  answered = record s {
    heap = put (found_heap world s.heap u) u none;
    events =
        s.events
        ++ (sent (world.open_pipe request.client_pipe) (request_bytes world.behind missing_text)
            ∷ []);
  }

  answered-IsBroker : IsBroker xs (record s {
    heap = put (found_heap world s.heap u) u none;
    events =
        s.events
        ++ (sent (world.open_pipe request.client_pipe) (request_bytes world.behind missing_text)
            ∷ []);
  })
  answered-IsBroker =
      put-IsBroker (record answered { heap = found_heap world s.heap u }) xs u none
        (put-IsBroker (record answered { heap = put s.heap u (some world.garbage) }) xs u
          (some (missing_box world))
          (put-IsBroker (record answered { heap = s.heap }) xs u (some world.garbage)
            (record {
              sound = ok.sound;
              unlocked = ok.unlocked;
              chain = ok.chain;
              simple = ok.simple;
            })
            outside)
          outside)
        outside

  not_there :
      NotThere world xs s (world.open_pipe request.client_pipe) u (remove_box world request s)
  unfolding remove_box
  not_there = record {
    result = record answered {
      events = answered.events ++ (closed (world.open_pipe request.client_pipe) ∷ []);
    };
    returns =
        continue-eq _ _ tt s (iterate-eq world s xs ok.chain enough)
        ∙ rw (opens, remove_box)
            (continue-eq _ _ u (record s { heap = found_heap world s.heap u })
                (find-missing world fresh ok enough request.box_name u new.allocated new.not_found)
              ∙ continue-eq _ _ minus_one (record s { heap = found_heap world s.heap u })
                  (calls-eq (tfs_open (some request.box_name) tfs_o_append)
                    (record s { heap = found_heap world s.heap u }) minus_one s.fs
                    (rw new.is_path
                      (tfs_open-missing first rest 4 ok.sound ok.unlocked new.unlinked refl)))
              ∙ continue-eq _ _ true _
                  (is_missing-true u (record s { heap = found_heap world s.heap u }))
              ∙ continue-eq _ _ tt answered (
                  continue-eq _ _ tt (record s { heap = put (found_heap world s.heap u) u none })
                    (free_box-eq u (missing_box world)
                      (record s { heap = found_heap world s.heap u }) (put_same _ u _))
                  ∙ answer-missing world (world.open_pipe request.client_pipe)
                      (record s { heap = put (found_heap world s.heap u) u none }) takes)
              ∙ continue-eq _ _ tt answered
                  (iterate-eq world answered xs answered-IsBroker.chain enough));
    in_order = record {
      sound = ok.sound;
      unlocked = ok.unlocked;
      chain = answered-IsBroker.chain;
      simple = ok.simple;
    };
    freed = put_same _ u none;
    same_boxes = λ x n. put_other _ u x none n ∙ put_other _ u x _ n ∙ put_other s.heap u x _ n;
    same_files = refl;
    says_so = refl;
  }

-- Between two requests, let there be a request to remove a box that is not in the list and has no
-- file, whose name is a slash and a file name and fits the array of the name; let `malloc` give a
-- box, let the pipe of the client open and take what is written, and let there be a round for each
-- box of the list. Then `remove_box` returns. The client is sent the answer "4 -1 Box doesn't
-- exist", and its pipe is closed; the list, the other boxes and the file system are as before, and
-- the box that `find_box` has made is freed.
pub remove_box-NotThere :
    (world : World) {xs : List ℕ} {s : Broker} (request : Request) (u first : ℕ) (rest : List ℕ)
    → GivesFresh world
    → IsBroker xs s
    → length xs ≤ world.rounds
    → is_minus_one (world.open_pipe request.client_pipe) ≡ false
    → ((bytes : List ℕ) → world.accepts (world.open_pipe request.client_pipe) bytes ≡ true)
    → IsUnlisted world xs s request.box_name u first rest
    → NotThere world xs s (world.open_pipe request.client_pipe) u (remove_box world request s)
remove_box-NotThere world request u first rest fresh ok enough opens takes new =
    not_there world request u first rest fresh ok enough opens takes new
