-- ===== src/Broker/Sessions/Session/Whole.antt =====
-- A whole session of a publisher, in `reg_publisher` of mbroker/mbroker.c.
use t_cnico_file_system_pt.Prelude.{
  ℕ, ◌+◌, ◌≤◌, ◌<◌, ◌≡◌, ◌≢◌, ◌⊎◌, sym, ap, ◌∙◌, arith, inl, inr, ℤ, pos, is_minus_one, List, [],
  ◌∷◌, ◌++◌, length, false, some, Bool-cases, ◌==◌, ==_iff, get_elem?,
}
use mathlib.Core.Path.{subst, fun_ext}
use t_cnico_file_system_pt.State.Types.{State, Inode}
use t_cnico_file_system_pt.State.Tables.FirstFree.{AllTaken}
use t_cnico_file_system_pt.Invariant.Defs.{root_entries}
use t_cnico_file_system_pt.State.Dir.Listing.{lookup}
use t_cnico_file_system_pt.Operations.Open.{tfs_close}
use t_cnico_file_system_pt.Operations.Open.Close.{tfs_close-closes, closed_at}
use t_cnico_file_system_pt.Operations.Transfer.Append.{IsText}
use t_cnico_file_system_pt.Boxes.{Box, Heap, put}
use t_cnico_file_system_pt.Boxes.Chain.{put_same, put_other}
use t_cnico_file_system_pt.Messages.{Request}
use t_cnico_file_system_pt.Clients.{closed}
use t_cnico_file_system_pt.Broker.{Broker, World, Run, finished}
use t_cnico_file_system_pt.Broker.Post.{continue-eq, calls-eq, load_box-eq, store_box-eq}
use t_cnico_file_system_pt.Broker.Find.{GivesFresh, IsBroker, with_box}
use t_cnico_file_system_pt.Broker.Manage.Existing.{IsStanding}
use t_cnico_file_system_pt.Broker.Sessions.{publish_to, receive}
use t_cnico_file_system_pt.Broker.Sessions.Opening.{OpensAtEnd, opens_at_end}
use t_cnico_file_system_pt.Broker.Sessions.Session.Kept.{Kept}
use t_cnico_file_system_pt.Broker.Sessions.Session.{Line, joined, AreMessages}

-- A box that gets a publisher and loses it again.
put_back :
    (h : Heap) (p : ℕ) (b : Box)
    → h p ≡ some b
    → b.has_writer ≡ pos 0
    → put
        (put h p (some (record b { has_writer = pos 1 })))
        p
        (some (record b { has_writer = pos 0 }))
      ≡ h
put_back h p b at idle = fun_ext (λ x. elim (Bool-cases (x == p)) [
  | inl y ↦
      let q : x ≡ p = (==_iff x p).0 y in
      ap
        (put (put h p (some (record b { has_writer = pos 1 }))) p
          (some (record b { has_writer = pos 0 })))
        q
      ∙ put_same _ p _
      ∙ ap (λ w. some (record b { has_writer = w })) (sym idle)
      ∙ sym (ap h q ∙ at)
  | inr z ↦ let n : x ≢ p = λ q. ground (arith, z, q) in put_other _ p x _ n ∙ put_other h p x _ n
])

-- What a session leaves.
pub record Publishes (xs : List ℕ) (s : Broker) (fd : ℤ) (i : ℕ) (bs : List ℕ)
    (o : Run (Unit {0} × Broker)) : Type 0 where
  pub result : Broker
  pub returns : o ≡ finished (tt, result)
  pub in_order : IsBroker xs result
  pub same_boxes : (x : ℕ) (b : Box) → s.heap x ≡ some b → result.heap x ≡ some b
  pub inode : Inode
  pub at_inumber : get_elem? result.fs.inode_table i ≡ some inode
  pub text : IsText result.fs inode bs
  pub same_directory : root_entries 0 result.fs ≡ root_entries 0 s.fs
  pub same_handles : result.fs.free_open_file_entries ≡ s.fs.free_open_file_entries
  pub pipe_closed : result.events ≡ s.events ++ (closed fd ∷ [])

pub publish_to-eq :
    (world : World) (fd : ℤ) (p k : ℕ) (pipe : List ℕ) (b : Box) (s : Broker)
    → s.heap p ≡ some b
    → b.has_writer ≡ pos 0
    → (r : Kept
        (record s { heap = put s.heap p (some (record b { has_writer = pos 1 })) })
        k
        (receive
          (pos k)
          (pos 0)
          []
          world.buffer
          (world.published pipe)
          (record s { heap = put s.heap p (some (record b { has_writer = pos 1 })) })))
    → publish_to world fd p (pos k) pipe s
      ≡ finished (tt, record s { fs = closed_at r.fs k; events = s.events ++ (closed fd ∷ []) })
unfolding publish_to
publish_to-eq world fd p k pipe b s at idle r =
    let b1 = record b { has_writer = pos 1 } in
    let busy = record s { heap = put s.heap p (some b1) } in
    let (closes, sound, c) = tfs_close-closes k r.sound r.unlocked r.opened in
    continue-eq _ _ b s (load_box-eq p b s at)
    ∙ continue-eq _ _ tt busy (store_box-eq p b b1 s at)
    ∙ continue-eq _ _ tt (record busy { fs = r.fs }) r.returns
    ∙ continue-eq _ _ (pos 0) (record busy { fs = closed_at r.fs k })
        (calls-eq (tfs_close (pos k)) (record busy { fs = r.fs }) (pos 0) (closed_at r.fs k) closes)
    ∙ continue-eq _ _ b1 (record busy { fs = closed_at r.fs k })
        (load_box-eq p b1 (record busy { fs = closed_at r.fs k }) (put_same s.heap p (some b1)))
    ∙ continue-eq _ _ tt
        (record busy {
          fs = closed_at r.fs k;
          heap = put busy.heap p (some (record b { has_writer = pos 0 }));
        })
        (store_box-eq p b1 (record b { has_writer = pos 0 }) (record busy { fs = closed_at r.fs k })
          (put_same s.heap p (some b1)))
    ∙ ap
        (λ h.
          finished (
            tt,
            record s { fs = closed_at r.fs k; heap = h; events = s.events ++ (closed fd ∷ []) },
          ))
        (put_back s.heap p b at idle)

-- A box in the list without a publisher, with a file that holds these bytes and can take the lines.
pub record IsIdle (xs : List ℕ) (s : Broker) (box_name : List ℕ) (p : ℕ) (b : Box) (first : ℕ)
    (rest : List ℕ) (i : ℕ) (v : Inode) (old : List ℕ) (lines : List Line) : Type 0 where
  pub standing : IsStanding xs s box_name p b first rest
  pub has_the_name : b.box_name ≡ box_name
  pub idle : b.has_writer ≡ pos 0
  pub linked : lookup (root_entries 0 s.fs) (first ∷ rest) ≡ pos i
  pub inode : get_elem? s.fs.inode_table i ≡ some v
  pub text : IsText s.fs v old
  pub fits : length old + length (joined lines) ≤ s.fs.block_size
  pub grows : (0 < length old) ⊎ (AllTaken s.fs.max_block_count s.fs.free_blocks → ⊥)

module _ (world : World) {xs : List ℕ} {s : Broker} (request : Request) (p : ℕ) (b : Box)
    (first : ℕ) (rest : List ℕ) (i : ℕ) (v : Inode) (old : List ℕ) (lines : List Line)
    (fresh : GivesFresh world) (ok : IsBroker xs s) (enough : length xs ≤ world.rounds)
    (opens : is_minus_one (world.open_pipe request.client_pipe) ≡ false)
    (idle : IsIdle xs s request.box_name p b first rest i v old lines)
    (messages : AreMessages lines (world.published request.client_pipe)) where
  abbrev found : Broker
  found = record s { heap = with_box world s.heap (world.malloc s.heap) }

  file : OpensAtEnd s.fs (some b.box_name) i v
  file =
      subst (λ n. OpensAtEnd s.fs (some n) i v) (sym (idle.has_the_name ∙ idle.standing.is_path))
        (opens_at_end s.fs first rest i idle.standing.free_handle v ok.sound ok.unlocked idle.linked
          idle.standing.is_free idle.inode)

  abbrev with_publisher : OpensAtEnd s.fs (some b.box_name) i v → Broker
  with_publisher file = record s {
    fs = file.opened;
    heap =
        put (with_box world s.heap (world.malloc s.heap)) p
          (some (record b { has_writer = pos 1 }));
  }
