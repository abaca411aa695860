-- ===== src/Broker/Service/Lifetime.antt =====
-- `main` of mbroker/mbroker.c, from `tfs_init` to `tfs_destroy`, on requests of managers and
-- publishers.
use t_cnico_file_system_pt.Prelude.{
  ℕ, ◌<◌, ◌≤◌, ◌≡◌, ◌≢◌, refl, sym, ap, ◌∙◌, arith, ℤ, pos, is_minus_one, List, [], ◌∷◌, ◌++◌, true,
  false, none, some, get_elem?, length,
}
use mathlib.Core.Path.{subst}
use t_cnico_file_system_pt.State.Types.{State, AllocationState, done, free, taken, TfsParams}
use t_cnico_file_system_pt.State.Init.{state_destroy}
use t_cnico_file_system_pt.Operations.Setup.{tfs_init, tfs_destroy, tfs_default_params}
use t_cnico_file_system_pt.Operations.Setup.Fresh.{IsFresh, tfs_init-IsFresh}
use t_cnico_file_system_pt.Operations.Setup.Fresh.Tables.{IsAllocated}
use t_cnico_file_system_pt.Boxes.{free_boxes}
use t_cnico_file_system_pt.Boxes.Chain.{IsChain, IsFreed, free_boxes-IsFreed}
use t_cnico_file_system_pt.Messages.{Request, fits_array, pipe_name_size}
use t_cnico_file_system_pt.Clients.{unlinked, closed}
use t_cnico_file_system_pt.Broker.{Broker, World, Run, finished, continue}
use t_cnico_file_system_pt.Broker.Post.{
  calls-eq, continue-eq, continue-undefined, value-eq, walks-eq,
}
use t_cnico_file_system_pt.Broker.Find.{GivesFresh}
use t_cnico_file_system_pt.Broker.Main.{
  atoi, is_positive, func_main, shut_down, run_broker, with_arguments, broker_main,
}
use t_cnico_file_system_pt.Broker.Service.Boxes.{AreNamed, length-AreNamed}
use t_cnico_file_system_pt.Broker.Service.{Asked, Holds, Serves, Returns, EachAsked, Arrive}
use t_cnico_file_system_pt.Broker.Service as Service
use t_cnico_file_system_pt.Broker.Service.Histories.{func_main-Serves, Serves-then}

-- The end of the process, from a broker whose boxes have the names: these boxes are freed, the file
-- system is destroyed, the register pipe is unlinked and closed, and `main` returns 0.
pub record ShutDown (world : World) (register_pipe : List ℕ) (names : List (List ℕ)) (s : Broker)
    (o : Run (ℤ × Broker)) : Type 0 where
  pub result : Broker
  pub returns : o ≡ finished (pos 0, result)
  pub boxes : List ℕ
  pub were_listed : IsChain s.heap s.head boxes
  pub named : AreNamed s.heap boxes names
  pub freed : IsFreed result.heap boxes
  pub destroyed : result.fs.is_set_up ≡ false
  pub no_inodes : result.fs.inode_table ≡ []
  pub pipe_unlinked :
      result.events
      ≡ (s.events ++ (unlinked register_pipe ∷ [])) ++ (closed (world.open_pipe register_pipe) ∷ [])

shut_down-ShutDown :
    (world : World) (register_pipe : List ℕ) (names : List (List ℕ)) (s : Broker)
    → Holds names s
    → length names ≤ world.rounds
    → ShutDown world register_pipe names s (shut_down world register_pipe s)
unfolding shut_down tfs_destroy state_destroy
shut_down-ShutDown world register_pipe names s holds enough =
    let same = length-AreNamed s.heap holds.boxes names holds.named in
    let (h', e, freed, rest) =
      free_boxes-IsFreed world.rounds s.heap s.head holds.boxes holds.in_order.chain
        holds.in_order.simple (omega (arith, same, enough)) in
    record {
      result = _;
      returns =
          continue-eq _ _ tt (record s { heap = h' })
            (walks-eq (λ s. free_boxes world.rounds s.heap s.head)
              (λ s h. (tt, record s { heap = h })) s h' e);
      boxes = holds.boxes;
      were_listed = holds.in_order.chain;
      named = holds.named;
      freed = freed;
      destroyed = refl;
      no_inodes = refl;
      pipe_unlinked = refl;
    }

is_free : (st : AllocationState) → st ≢ taken → st ≡ free
is_free free n = refl
is_free taken n = absurd (n refl)

first_free :
    (l : List AllocationState)
    → 0 < length l
    → ((h : ℕ) → get_elem? l h ≢ some taken)
    → get_elem? l 0 ≡ some free
first_free [] l n = absurd (omega arith)
first_free (st ∷ l) h n = ap some (is_free st (λ z. n 0 (ap some z)))

-- The second argument is the number of an `int` greater than 0, the first one fits its array, the
-- register pipe is made and opens, `malloc` gives the arrays of the file system, nothing is set up
-- yet, and there is no box.
pub record Starts (world : World) (register_pipe max_sessions : List ℕ) (s : Broker) : Type 0 where
  pub sessions : ℤ
  pub is_number : atoi max_sessions ≡ done sessions
  pub positive : is_positive sessions ≡ true
  pub pipe_fits : fits_array pipe_name_size register_pipe ≡ true
  pub makes_pipe : world.makes_pipe register_pipe ≡ true
  pub opens : is_minus_one (world.open_pipe register_pipe) ≡ false
  pub allocated : IsAllocated world.allocation tfs_default_params
  pub not_set_up : s.fs.is_set_up ≡ false
  pub unlocked : s.fs.mutex_locked ≡ false
  pub no_boxes : s.head ≡ none

pub fresh-Holds :
    (s : Broker)
    → IsFresh s.fs
    → s.fs.params ≡ tfs_default_params
    → s.fs.mutex_locked ≡ false
    → s.head ≡ none
    → Holds [] s
unfolding Service.Lists.has
fresh-Holds s fresh e unlocked nothing = record {
  boxes = [];
  in_order = record { sound = fresh.sound; unlocked = unlocked; chain = nothing; simple = tt };
  named = tt;
  distinct = tt;
  listed = λ n f. ((λ h. absurd (ground (arith, h))), λ h. fresh.no_files n);
  free_handle = 0;
  is_free =
      first_free s.fs.free_open_file_entries
        (omega (arith, fresh.sound.shape.open_file_states, ap TfsParams.max_open_files_count e))
        fresh.no_handles;
}

broker_main-eq :
    (world : World) (program register_pipe max_sessions : List ℕ) (request : Request)
    (buffer : List ℕ) (chunks : List (List ℕ)) (s : Broker) (fs : State)
    → Starts world register_pipe max_sessions s
    → tfs_init world.allocation none s.fs ≡ done (pos 0, fs)
    → broker_main world (program ∷ register_pipe ∷ max_sessions ∷ []) request buffer chunks s
      ≡ continue
          (func_main world request buffer chunks
            (record s { fs = fs; events = s.events ++ (unlinked register_pipe ∷ []) }))
          (λ u. shut_down world register_pipe)
unfolding broker_main with_arguments run_broker
broker_main-eq world program register_pipe max_sessions request buffer chunks s fs starts e =
    continue-eq _ _ (pos 0) (record s { fs = fs })
      (calls-eq (tfs_init world.allocation none) s (pos 0) fs e)
    ∙ continue-eq _ _ starts.sessions (record s { fs = fs })
        (value-eq (atoi max_sessions) starts.sessions (record s { fs = fs }) starts.is_number)
    ∙ rw (starts.positive, with_arguments)
        (rw (starts.pipe_fits, run_broker) (rw (starts.makes_pipe, starts.opens) refl))

-- Let the first argument of the broker fit its array and the second be the number of an `int`
-- greater than 0, let the register pipe be made and open, let `malloc` give the arrays of the file
-- system, and let nothing be set up and no box be there yet. Let the calls of `read` on that pipe
-- return requests as the clients write them: of managers to create boxes, to remove them and for the
-- list, and of publishers for a session with a box. Let these have words that fit the arrays, file
-- names for the boxes, and pipes that open and take what is written, let no name be created again,
-- unless it was to be removed in between, let what a publisher's pipe gives be the messages of
-- lines, and let there be a round for each request. Then `main` sets up a sound file system with no
-- file, unlinks what has the path of the register pipe, and serves each request as a list of names
-- says that is empty at first, as `func_main` does: the state after each is the one that
-- `serve_request` leaves on its bytes, and the next is served in it. In the state after the last
-- request the boxes have the names of the list; `main` frees each of them, destroys the file system,
-- unlinks and closes the register pipe, and returns 0; or `malloc` gives no box for a request about a
-- name that is not there, and the behaviour is undefined.
pub broker_main-Serves :
    (world : World) (program register_pipe max_sessions : List ℕ) (history : List Asked)
    (request : Request) (buffer : List ℕ) (chunks : List (List ℕ)) (s : Broker)
    → GivesFresh world
    → Starts world register_pipe max_sessions s
    → length history ≤ world.rounds
    → EachAsked world history
    → Service.IsFresh [] history
    → Arrive history chunks
    → (fs : State) × (tfs_init world.allocation none s.fs ≡ done (pos 0, fs))
      × IsFresh fs
      × Serves world
          (ShutDown world register_pipe)
          (broker_main world (program ∷ register_pipe ∷ max_sessions ∷ []) request buffer chunks s)
          []
          (record s { fs = fs; events = s.events ++ (unlinked register_pipe ∷ []) })
          request
          buffer
          chunks
          history
broker_main-Serves world program register_pipe max_sessions history request buffer chunks s fresh
      starts enough each may_ask arrive =
    let (fs, e, set_up, params, locked) =
      tfs_init-IsFresh world.allocation none s.fs starts.allocated starts.not_set_up in
    let start = record s { fs = fs; events = s.events ++ (unlinked register_pipe ∷ []) } in
    let holds : Holds [] start =
      fresh-Holds start set_up params (locked ∙ starts.unlocked) starts.no_boxes in
    let eq =
      broker_main-eq world program register_pipe max_sessions request buffer chunks s fs starts e in
    (
      fs,
      e,
      set_up,
      Serves-then world Returns (ShutDown world register_pipe) _ _ [] start request buffer chunks
          history
          (λ names s' h l r.
            subst (ShutDown world register_pipe names s')
              (sym (eq ∙ continue-eq _ (λ u. shut_down world register_pipe) tt s' r))
              (shut_down-ShutDown world register_pipe names s' h l))
          (λ u. eq ∙ continue-undefined _ _ u) holds (omega (arith, enough))
          (func_main-Serves world history chunks [] start request buffer fresh holds
            (omega (arith, enough)) each may_ask arrive),
    )
