-- ===== src/Broker/Sessions/Session/Registered.antt =====
-- A request to register a publisher leaves the broker of mbroker/mbroker.c between two requests,
-- where the box is there and where it is not.
use t_cnico_file_system_pt.Prelude.{
  ℕ, ◌≤◌, ◌≡◌, ◌≢◌, refl, sym, ap, ◌∙◌, arith, pos, is_minus_one, List, [], ◌∷◌, ◌++◌, length,
  false, some, none, get_elem?, get_elem?-lt, get_elem?_bound, set,
}
use mathlib.Core.Path.{subst}
use t_cnico_file_system_pt.State.Types.{free, taken, Inode}
use t_cnico_file_system_pt.State.Dir.Links.{lookup-IsLinked}
use t_cnico_file_system_pt.Invariant.Defs.{root_entries}
use t_cnico_file_system_pt.Operations.Open.{tfs_open}
use t_cnico_file_system_pt.Operations.Open.Close.{tfs_close-closes}
use t_cnico_file_system_pt.Boxes.{Box, put}
use t_cnico_file_system_pt.Boxes.Chain.{first_named, put_same, put_other}
use t_cnico_file_system_pt.Messages.{Request}
use t_cnico_file_system_pt.Clients.{closed, unlinked}
use t_cnico_file_system_pt.Broker.{Broker, World, Run, finished}
use t_cnico_file_system_pt.Broker.Post.{continue-eq, calls-eq, load_box-eq}
use t_cnico_file_system_pt.Broker.Find.{
  GivesFresh, IsBroker, with_box, with_box-kept, with_box-IsBroker, find-found, find-missing,
  missing_box, put-IsBroker, IsOutside-none,
}
use t_cnico_file_system_pt.Broker.Manage.{tfs_o_append}
use t_cnico_file_system_pt.Broker.Manage.Create.{found_heap}
use t_cnico_file_system_pt.Broker.Manage.Existing.{IsStanding, free_box-eq}
use t_cnico_file_system_pt.Broker.Sessions.{receive, reg_publisher, is_nonzero}
use t_cnico_file_system_pt.Broker.Sessions.Opening.{OpensAtEnd, opens_at_end}
use t_cnico_file_system_pt.Broker.Sessions.Session.{Line, AreMessages}
use t_cnico_file_system_pt.Broker.Sessions.Session.Kept.{Kept, receive-Kept}
use t_cnico_file_system_pt.Broker.Sessions.Session.Whole.{publish_to-eq}

-- What is left: the boxes, the directory and the handles are as before.
pub record Registered (xs : List ℕ) (s : Broker) (o : Run (Unit {0} × Broker)) : Type 0 where
  pub result : Broker
  pub returns : o ≡ finished (tt, result)
  pub in_order : IsBroker xs result
  pub same_boxes : (x : ℕ) (b : Box) → s.heap x ≡ some b → result.heap x ≡ some b
  pub same_directory : root_entries 0 result.fs ≡ root_entries 0 s.fs
  pub same_handles : result.fs.free_open_file_entries ≡ s.fs.free_open_file_entries

module _ (world : World) {xs : List ℕ} {s : Broker} (request : Request) (fresh : GivesFresh world)
    (ok : IsBroker xs s) (enough : length xs ≤ world.rounds)
    (opens : is_minus_one (world.open_pipe request.client_pipe) ≡ false) where
  -- There is no such box: the publisher's pipe is unlinked and closed.
  pub reg_publisher-missing :
      (u : ℕ)
      → world.malloc s.heap ≡ some u
      → first_named s.heap xs request.box_name ≡ none
      → (r : Registered xs s (reg_publisher world request s)) × (r.result.events
          ≡ (s.events ++ (unlinked request.client_pipe ∷ []))
            ++ (closed (world.open_pipe request.client_pipe) ∷ []))
  unfolding reg_publisher
  reg_publisher-missing u m none_there =
      let found = record s { heap = found_heap world s.heap u } in
      let ended = record found {
        events =
            (s.events ++ (unlinked request.client_pipe ∷ []))
            ++ (closed (world.open_pipe request.client_pipe) ∷ []);
      } in
      let o = IsOutside-none s.heap s.head xs u ok.chain (fresh s.heap u m) in
      let order =
        put-IsBroker (record s { heap = found_heap world s.heap u }) xs u none
          (put-IsBroker (record s { heap = put s.heap u (some world.garbage) }) xs u
            (some (missing_box world)) (put-IsBroker s xs u (some world.garbage) ok o) o)
          o in
      (
        record {
          result = record ended { heap = put (found_heap world s.heap u) u none };
          returns =
              rw (opens, reg_publisher)
                (continue-eq _ _ u found
                    (find-missing world fresh ok enough request.box_name u m none_there)
                  ∙ continue-eq _ _ (missing_box world) found
                      (load_box-eq u (missing_box world) found (put_same _ u _))
                  ∙ free_box-eq u (missing_box world) ended (put_same _ u _));
          in_order = record {
            sound = order.sound;
            unlocked = order.unlocked;
            chain = order.chain;
            simple = order.simple;
          };
          same_boxes = λ x b e.
              let n : x ≢ u = λ z. ground (arith, sym (ap s.heap z) ∙ e, fresh s.heap u m) in
              put_other _ u x none n ∙ put_other _ u x _ n ∙ put_other s.heap u x _ n ∙ e;
          same_directory = refl;
          same_handles = refl;
        },
        refl,
      )

  module _ (p : ℕ) (b : Box) (first : ℕ) (rest : List ℕ) (lines : List Line)
      (standing : IsStanding xs s request.box_name p b first rest)
      (has_the_name : b.box_name ≡ request.box_name) (idle : b.has_writer ≡ pos 0)
      (messages : AreMessages lines (world.published request.client_pipe)) where
    abbrev found : Broker
    found = record s { heap = with_box world s.heap (world.malloc s.heap) }

    kept : with_box world s.heap (world.malloc s.heap) p ≡ some b
    kept = with_box-kept world s.heap (world.malloc s.heap) p b (fresh s.heap) standing.contents

    there :
        (v : Inode)
        → get_elem? s.fs.inode_table standing.inumber ≡ some v
        → (r : Registered xs s (reg_publisher world request s)) × (r.result.events
            ≡ s.events ++ (closed (world.open_pipe request.client_pipe) ∷ []))
    unfolding reg_publisher
    there v at =
        let file =
          subst (λ n. OpensAtEnd s.fs (some n) standing.inumber v)
            (sym (has_the_name ∙ standing.is_path))
            (opens_at_end s.fs first rest standing.inumber standing.free_handle v ok.sound
              ok.unlocked standing.linked standing.is_free at) in
        let with_publisher = record s {
          fs = file.opened;
          heap =
              put (with_box world s.heap (world.malloc s.heap)) p
                (some (record b { has_writer = pos 1 }));
        } in
        let r : Kept with_publisher file.number (
            receive (pos file.number) (pos 0) [] world.buffer (world.published request.client_pipe)
              with_publisher) =
          receive-Kept with_publisher file.number standing.inumber file.entry v lines
            (world.published request.client_pipe) (pos 0) [] world.buffer file.sound file.unlocked
            file.on_file messages in
        let order = with_box-IsBroker world fresh ok enough request.box_name in
        let (closes, sound, c) = tfs_close-closes file.number r.sound r.unlocked r.opened in
        (
          record {
            result = _;
            returns =
                rw (opens, reg_publisher)
                  (continue-eq _ _ p found
                      (find-found world fresh ok enough request.box_name p standing.found)
                    ∙ continue-eq _ _ b found (load_box-eq p b found kept)
                    ∙ rw (ap is_nonzero idle) (
                        continue-eq _ _ (pos file.number) (record found { fs = file.opened })
                          (calls-eq (tfs_open (some b.box_name) tfs_o_append) found
                            (pos file.number) file.opened file.opens)
                        ∙ publish_to-eq world (world.open_pipe request.client_pipe) p file.number
                            request.client_pipe b (record found { fs = file.opened }) kept idle r));
            in_order = record {
              sound = sound;
              unlocked = r.unlocked;
              chain = order.chain;
              simple = order.simple;
            };
            same_boxes =
                λ x bx e. with_box-kept world s.heap (world.malloc s.heap) x bx (fresh s.heap) e;
            same_directory = r.listed ∙ file.same_directory;
            same_handles = ap (λ t. set t file.number free) r.states ∙ file.same_handles;
          },
          refl,
        )

    pub reg_publisher-there :
        (r : Registered xs s (reg_publisher world request s)) × (r.result.events
          ≡ s.events ++ (closed (world.open_pipe request.client_pipe) ∷ []))
    reg_publisher-there =
        let (j, e, nz, t) =
          lookup-IsLinked s.fs.freeinode_ts (root_entries 0 s.fs) (first ∷ rest)
            ok.sound.directory.links (λ m. ground (arith, standing.linked, m)) in
        let same : j ≡ standing.inumber = ground (arith, standing.linked, e) in
        let (v, at) = get_elem?-lt s.fs.inode_table j (
          omega (
            arith,
            get_elem?_bound s.fs.freeinode_ts j taken t,
            ok.sound.shape.inode_states,
            ok.sound.shape.inodes,
          )) in
        there v (ap (get_elem? s.fs.inode_table) (sym same) ∙ at)
