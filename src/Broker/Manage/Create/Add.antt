-- ===== src/Broker/Manage/Create/Add.antt =====
-- `add_box` of the model of mbroker/mbroker.c: a box joins the list behind its file.
use t_cnico_file_system_pt.Prelude.{
  ℕ, ◌≤◌, ◌<◌, ◌≡◌, ◌≢◌, refl, sym, ap, ◌∙◌, arith, ℤ, pos, List, [], ◌∷◌, ◌++◌, true, false,
  Option, some, get_elem?, length,
}
use t_cnico_file_system_pt.State.Types.{State, done, taken}
use t_cnico_file_system_pt.Invariant.Defs.{IsSound}
use t_cnico_file_system_pt.Operations.Open.{tfs_open, tfs_close}
use t_cnico_file_system_pt.Operations.Open.Close.{tfs_close-closes, closed_at}
use t_cnico_file_system_pt.Boxes.{Box, Heap, put, returned, insert_box}
use t_cnico_file_system_pt.Boxes.Chain.{
  IsChain, IsOutside, IsSimple, put_other, put_same, IsChain-put,
}
use t_cnico_file_system_pt.Boxes.Insert.{SameBoxes, contents, insert_box-appends}
use t_cnico_file_system_pt.Text.{show_int, show_nat, emit}
use t_cnico_file_system_pt.Messages.{
  fits_array, request_bytes, box_name_size, serialize_answer, answer_create_box,
}
use t_cnico_file_system_pt.Clients.{sent}
use t_cnico_file_system_pt.Broker.{Broker, World, Run, finished, answer, send_request}
use t_cnico_file_system_pt.Broker.Post.{calls-eq, walks-eq, continue-eq, load_box-eq, store_box-eq}
use t_cnico_file_system_pt.Broker.Find.{IsBroker, missing_box}
use t_cnico_file_system_pt.Broker.Manage.{add_box, name_box, tfs_o_creat}

-- The box that is added, and the answer.
abbrev pub named_box : World → List ℕ → Box
named_box world name = record (missing_box world) {
  has_writer = pos 0;
  n_readers = pos 0;
  box_name = name;
}

-- "4 0 "
abbrev pub accepted_text : List ℕ
accepted_text = 52 ∷ 32 ∷ 48 ∷ 32 ∷ []

accepted-eq : serialize_answer answer_create_box (pos 0) [] ≡ done accepted_text
unfolding serialize_answer show_int show_nat emit
accepted-eq = refl

-- An answer that is taken.
pub answer-accepted :
    (world : World) (fd : ℤ) (s : Broker)
    → ((bytes : List ℕ) → world.accepts fd bytes ≡ true)
    → answer world fd (pos 0) [] s
      ≡ finished (
        tt,
        record s { events = s.events ++ (sent fd (request_bytes world.behind accepted_text) ∷ []) },
      )
unfolding answer send_request
answer-accepted world fd s takes =
    rw (accepted-eq, takes (request_bytes world.behind accepted_text), answer) refl

name_box-eq :
    (world : World) (u : ℕ) (s : Broker) (name : List ℕ)
    → s.heap u ≡ some (missing_box world)
    → length name < box_name_size
    → name_box u name s
      ≡ finished (tt, record s { heap = put s.heap u (some (named_box world name)) })
unfolding name_box
name_box-eq world u s name e fits =
    continue-eq _ _ (missing_box world) s (load_box-eq u (missing_box world) s e)
    ∙ rw (fits_true, name_box) (store_box-eq u (missing_box world) _ s e)
  where
    fits_true : fits_array box_name_size name ≡ true
    fits_true = ground (arith, fits)

IsOutside-snoc : (a u : ℕ) (xs : List ℕ) → IsOutside a xs → a ≢ u → IsOutside a (xs ++ (u ∷ []))
IsOutside-snoc a u [] o n = (n, tt)
IsOutside-snoc a u (x ∷ xs) o n = (o.0, IsOutside-snoc a u xs o.1 n)

IsSimple-snoc : (u : ℕ) (xs : List ℕ) → IsSimple xs → IsOutside u xs → IsSimple (xs ++ (u ∷ []))
IsSimple-snoc u [] d o = (tt, tt)
IsSimple-snoc u (x ∷ xs) d o =
    (IsOutside-snoc x u xs d.0 (λ e. o.0 (sym e)), IsSimple-snoc u xs d.1 o.1)

-- The box joins the list behind a call of `tfs_open` that has made the file.
module _ (world : World) {xs : List ℕ} {s : Broker} (name : List ℕ) (u fd k : ℕ) (fs : State)
    (ok : IsBroker xs s) (at : s.heap u ≡ some (missing_box world)) (o : IsOutside u xs)
    (enough : length xs ≤ world.rounds) (fits : length name < box_name_size)
    (takes : (bytes : List ℕ) → world.accepts (pos fd) bytes ≡ true)
    (opens : tfs_open (some name) tfs_o_creat s.fs ≡ done (pos k, fs)) (sound : IsSound 0 fs)
    (unlocked : fs.mutex_locked ≡ false)
    (open_handle : get_elem? fs.free_open_file_entries k ≡ some taken) where
  inserted :
      (head' : Option ℕ) × (h' : Heap) × (insert_box world.rounds
          (put s.heap u (some (named_box world name)))
          u
          s.head
        ≡ returned (head', h'))
      × IsChain h' head' (xs ++ (u ∷ []))
      × SameBoxes (put s.heap u (some (named_box world name))) h'
      × ((x : ℕ) → IsOutside x (u ∷ xs) → h' x ≡ put s.heap u (some (named_box world name)) x)
  inserted =
      insert_box-appends world.rounds (put s.heap u (some (named_box world name))) u s.head xs
        (named_box world name)
        (IsChain-put s.heap u (some (named_box world name)) s.head xs o ok.chain) ok.simple o
        (put_same s.heap u _) enough

  abbrev end_state : Option ℕ → Heap → Broker
  end_state head' h' = record {
    fs = closed_at fs k;
    heap = h';
    head = head';
    events = s.events ++ (sent (pos fd) (request_bytes world.behind accepted_text) ∷ []);
  }

  add_box-eq :
      (head' : Option ℕ) (h' : Heap)
      → insert_box world.rounds (put s.heap u (some (named_box world name))) u s.head
        ≡ returned (head', h')
      → add_box world (pos fd) u name s ≡ finished (tt, end_state head' h')
  unfolding add_box
  add_box-eq head' h' e =
      continue-eq _ _ (pos k) (record s { fs = fs })
        (calls-eq (tfs_open (some name) tfs_o_creat) s (pos k) fs opens)
      ∙ continue-eq (name_box u name (record s { fs = fs })) _ tt _
          (name_box-eq world u _ name at fits)
      ∙ continue-eq _ _ tt (record s { fs = fs; heap = h'; head = head' })
          (walks-eq (λ s. insert_box world.rounds s.heap u s.head)
            (λ s r. (tt, record s { head = r.0; heap = r.1 }))
            (record s { fs = fs; heap = put s.heap u (some (named_box world name)) }) (head', h') e)
      ∙ continue-eq _ _ tt _ (answer-accepted world (pos fd) _ takes)
      ∙ continue-eq _ _ (pos 0) (end_state head' h') (
          calls-eq (tfs_close (pos k)) _ (pos 0) (closed_at fs k)
            (tfs_close-closes k sound unlocked open_handle).0)

  abbrev pub Added : Run (Unit {0} × Broker) → Type 0
  Added o =
      (s' : Broker) × (o ≡ finished (tt, s'))
      × (s'.fs ≡ closed_at fs k)
      × IsBroker (xs ++ (u ∷ [])) s'
      × (contents (s'.heap u) ≡ some (name, pos 0, pos 0))
      × ((x : ℕ) → x ≢ u → contents (s'.heap x) ≡ contents (s.heap x))
      × (s'.events ≡ s.events ++ (sent (pos fd) (request_bytes world.behind accepted_text) ∷ []))

  pub add_box-Added : Added (add_box world (pos fd) u name s)
  add_box-Added =
      let (head', h', e, chain, same, outside) = inserted in
      (
        end_state head' h',
        add_box-eq head' h' e,
        refl,
        record {
          sound = (tfs_close-closes k sound unlocked open_handle).1;
          unlocked = unlocked;
          chain = chain;
          simple = IsSimple-snoc u xs ok.simple o;
        },
        same u ∙ ap contents (put_same s.heap u _),
        λ x n. same x ∙ ap contents (put_other s.heap u x _ n),
        refl,
      )
