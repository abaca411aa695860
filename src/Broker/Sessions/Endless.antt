-- ===== src/Broker/Sessions/Endless.antt =====
-- A request to subscribe to a box, in `reg_subscriber` and `func_main` of mbroker/mbroker.c.
use t_cnico_file_system_pt.Prelude.{
  ℕ, ◌≤◌, ◌<◌, ◌≡◌, refl, arith, ℤ, pos, is_minus_one, List, ◌∷◌, false, some, get_elem?,
  get_elem?-set_self, get_elem?_bound, length,
}
use t_cnico_file_system_pt.State.Types.{State, done, Inode, AllocationState, free, taken}
use t_cnico_file_system_pt.State.Dir.Listing.{lookup}
use t_cnico_file_system_pt.Invariant.Defs.{IsSound, root_entries}
use t_cnico_file_system_pt.Invariant.Calls.{put_open_file}
use t_cnico_file_system_pt.Operations.Open.{tfs_open, slash}
use t_cnico_file_system_pt.Operations.Open.Handle.{path_to, table_full, handle}
use t_cnico_file_system_pt.Operations.Open.Existing.{tfs_open-Reopens, opened_state}
use t_cnico_file_system_pt.Boxes.{Box}
use t_cnico_file_system_pt.Boxes.Chain.{first_named}
use t_cnico_file_system_pt.Messages.{Request}
use t_cnico_file_system_pt.Broker.{Broker, World, store_box}
use t_cnico_file_system_pt.Broker.Post.{
  NeverReturns, continue-Post, calls-eq, continue-finished, load_box-eq, store_box-eq,
}
use t_cnico_file_system_pt.Broker.Find.{GivesFresh, IsBroker, with_box, with_box-kept, find-found}
use t_cnico_file_system_pt.Broker.Sessions.{reg_subscriber, subscribe_to}
use t_cnico_file_system_pt.Broker.Sessions.Subscriber.{Standing, forward-NeverReturns}

-- A box of the list that has the name, with its address, its contents and the inode of its file.
pub record IsListed (xs : List ℕ) (s : Broker) (box_name : List ℕ) (p : ℕ) (b : Box) (i : ℕ)
    : Type 0 where
  pub found : first_named s.heap xs box_name ≡ some p
  pub contents : s.heap p ≡ some b
  pub has_file : is_minus_one b.has_writer ≡ false
  pub first : ℕ
  pub rest : List ℕ
  pub is_path : b.box_name ≡ slash ∷ first ∷ rest
  pub linked : lookup (root_entries 0 s.fs) (first ∷ rest) ≡ pos i

-- An entry at offset 0 stands on its file.
opened-Standing :
    (fs : State) (h i : ℕ) (v : Inode) (blocks : List AllocationState)
    → IsSound 0 fs
    → get_elem? fs.inode_table i ≡ some v
    → get_elem? fs.free_open_file_entries h ≡ some free
    → IsSound 0
        (record (put_open_file (pos i) 0 h (opened_state 1 fs i v blocks)) { mutex_locked = false })
    → Standing h i v
        (record (put_open_file (pos i) 0 h (opened_state 1 fs i v blocks)) { mutex_locked = false })
opened-Standing fs h i v blocks before at f ok = record {
  entry = record { of_inumber = pos i; of_offset = 0 };
  sound = ok;
  unlocked = refl;
  handle = record {
    opened = get_elem?-set_self fs.free_open_file_entries h taken inside;
    entry =
        get_elem?-set_self fs.open_file_table h _
          (omega (arith, inside, before.shape.open_files, before.shape.open_file_states));
    inumber = refl;
    inode = get_elem?-set_self fs.inode_table i v (get_elem?_bound fs.inode_table i v at);
  };
  within = omega arith;
}
  where
    inside : h < length fs.free_open_file_entries
    inside = get_elem?_bound fs.free_open_file_entries h free f

-- The file of the box is opened where a handle is free.
opens-Standing :
    {fs : State} (c : ℕ) (name : List ℕ) (i h : ℕ)
    → IsSound 0 fs
    → fs.mutex_locked ≡ false
    → lookup (root_entries 0 fs) (c ∷ name) ≡ pos i
    → get_elem? fs.free_open_file_entries h ≡ some free
    → (k : ℕ) × (v : Inode) × (fs' : State) × (tfs_open (path_to c name) 1 fs ≡ done (pos k, fs'))
      × Standing k i v fs'
opens-Standing {fs} c name i h ok unheld e f =
    let r = tfs_open-Reopens c name 1 i ok unheld e in
    elim r.opens [
      | table_full all eq sound ↦ absurd (
          ground (
            arith,
            all h (
                omega (
                  arith,
                  get_elem?_bound fs.free_open_file_entries h free f,
                  ok.shape.open_file_states,
                )),
            f,
          ))
      | handle k g before eq sound ↦
          (k, r.inode, _, eq, opened-Standing fs k i r.inode r.blocks ok r.at_inumber g sound)
    ]

subscribe_to-NeverReturns :
    (world : World) (fd : ℤ) (p : ℕ) (b : Box) (client_pipe : List ℕ) (h i : ℕ) (v : Inode)
    (s : Broker)
    → s.heap p ≡ some b
    → Standing h i v s.fs
    → NeverReturns (subscribe_to world fd p (pos h) client_pipe s)
unfolding subscribe_to store_box
subscribe_to-NeverReturns world fd p b client_pipe h i v s e st =
    continue-finished (λ a s. ⊥) _ _ b s (load_box-eq p b s e)
      (continue-finished (λ a s. ⊥) _ _ tt _ (store_box-eq p b _ s e)
        (continue-Post (λ a s. ⊥) (λ a s. ⊥) _ _
          (forward-NeverReturns world.rounds world fd world.buffer (pos 0) _ st) λ a t f. absurd f))

-- Between two requests, let there be a subscriber's request for a box of the list, which has a file
-- in the directory and a count of publishers other than -1; let `malloc` give a new address or none,
-- let the subscriber's pipe open, let a handle be free and let there be a round for each box of the
-- list. Then `reg_subscriber` does not return, however many rounds the loop of
-- the session may make: it needs more of them, unless the process ends, does what C leaves
-- undefined or waits for its own mutex before.
pub reg_subscriber-NeverReturns :
    (world : World) {xs : List ℕ} {s : Broker} (request : Request) (p : ℕ) (b : Box) (i h : ℕ)
    → GivesFresh world
    → IsBroker xs s
    → length xs ≤ world.rounds
    → is_minus_one (world.open_pipe request.client_pipe) ≡ false
    → IsListed xs s request.box_name p b i
    → get_elem? s.fs.free_open_file_entries h ≡ some free
    → NeverReturns (reg_subscriber world request s)
unfolding reg_subscriber
reg_subscriber-NeverReturns world {xs} {s} request p b i h fresh ok enough opens listed f =
    let (k, v, fs, eq, st) =
      opens-Standing listed.first listed.rest i h ok.sound ok.unlocked listed.linked f in
    rw (opens, reg_subscriber)
      (continue-finished (λ a s. ⊥) _ _ p after_find
        (find-found world fresh ok enough request.box_name p listed.found)
        (continue-finished (λ a s. ⊥) _ _ b after_find (load_box-eq p b after_find kept)
          (rw listed.has_file (
            continue-finished (λ a s. ⊥) _ _ (pos k) (record after_find { fs = fs })
              (calls-eq (tfs_open (some b.box_name) 1) after_find (pos k) fs (rw listed.is_path eq))
              (subscribe_to-NeverReturns world _ p b request.client_pipe k i v _ kept st)))))
  where
    after_find : Broker
    after_find = record s { heap = with_box world s.heap (world.malloc s.heap) }

    kept : with_box world s.heap (world.malloc s.heap) p ≡ some b
    kept = with_box-kept world s.heap (world.malloc s.heap) p b (fresh s.heap) listed.contents
