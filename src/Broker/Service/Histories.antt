-- ===== src/Broker/Service/Histories.antt =====
-- A history of requests in `func_main` of mbroker/mbroker.c.
use t_cnico_file_system_pt.Prelude.{
  ℕ, ◌+◌, ◌≤◌, ◌≡◌, ◌≢◌, ◌<◌, refl, sym, ap, ◌∙◌, arith, List, [], ◌∷◌, ◌++◌, length, drop,
}
use mathlib.Core.Path.{subst}
use t_cnico_file_system_pt.State.Types.{done}
use t_cnico_file_system_pt.Messages.{Request, request_bytes, pipe_name_size, box_name_size}
use t_cnico_file_system_pt.Clients.{Names}
use t_cnico_file_system_pt.Clients.Requests.{IsNamed}
use t_cnico_file_system_pt.Clients.Manager.{create, remove, list, overwritten}
use t_cnico_file_system_pt.Broker.{Broker, World, Run, undefined, pure, continue}
use t_cnico_file_system_pt.Broker.Post.{continue-eq, continue-undefined}
use t_cnico_file_system_pt.Broker.Find.{GivesFresh}
use t_cnico_file_system_pt.Broker.Main.{func_main, serve_request}
use t_cnico_file_system_pt.Broker.Main.Handlers.{serve_request-handler, serve_request-publisher}
use t_cnico_file_system_pt.Broker.Service.Handled.{stepped, out_of_memory}
use t_cnico_file_system_pt.Broker.Service.{
  Action, to_create, to_remove, to_list, to_publish, request_text, Asked, names_of, IsAsked, Holds,
  Serves, Returns, all_served, quiet, served, no_memory, may_after, IsFresh, EachAsked, Arrive,
}
use t_cnico_file_system_pt.Broker.Service.Within.{Within, MayAsk-Within, Step-length, Step-Within}
use t_cnico_file_system_pt.Broker.Service.Actions.{
  action_handler, action_request, action_handler-Handled,
}

-- A round of `func_main` on the request of a client.
serve_request-action :
    (world : World) (c : Action) (names : Names)
    → IsNamed names
    → names.box_name ≢ []
    → length names.personal_pipe < pipe_name_size
    → length names.box_name < box_name_size
    → (text : List ℕ) × (request_text c names ≡ done text)
      × ((behind rest : List ℕ) (old : Request) (s : Broker)
          → serve_request world old (request_bytes behind text ++ rest) s
            ≡ continue
                (action_handler c world (action_request c names old) s)
                (λ u. pure (action_request c names old)))
serve_request-action world to_create names = serve_request-handler world create names
serve_request-action world to_remove names = serve_request-handler world remove names
serve_request-action world to_list names = serve_request-handler world list names
serve_request-action world to_publish names = serve_request-publisher world names

-- A round of `func_main` on the bytes of a request.
serve_request-bytes :
    (world : World) (a : Asked) (chunk text behind buffer : List ℕ) (old : Request) (s : Broker)
    → IsAsked world a
    → request_text a.action (names_of a) ≡ done text
    → chunk ≡ request_bytes behind text
    → serve_request world old (overwritten chunk buffer) s
      ≡ continue
          (action_handler a.action world (action_request a.action (names_of a) old) s)
          (λ u. pure (action_request a.action (names_of a) old))
serve_request-bytes world a chunk text behind buffer old s asked e q =
    let (text', e', reads) =
      serve_request-action world a.action (names_of a) asked.is_named (λ z. ground (arith, z))
        asked.pipe_fits asked.name_fits in
    let same : text' ≡ text = ground (arith, sym e' ∙ e) in
    ap (λ b. serve_request world old (b ++ drop (length chunk) buffer) s)
      (q ∙ ap (request_bytes behind) (sym same))
    ∙ reads behind (drop (length chunk) buffer) old s

module _ (world : World) (fresh : GivesFresh world) where
  -- Each request is served in the state that the one before left.
  histories :
      (history : List Asked) (chunks : List (List ℕ)) (names may : List (List ℕ)) (s : Broker)
      (old : Request) (buffer : List ℕ)
      → Holds names s
      → length names + length history ≤ world.rounds
      → EachAsked world history
      → Within names may
      → IsFresh may history
      → Arrive history chunks
      → Serves world Returns (func_main world old buffer chunks s) names s old buffer chunks history
  unfolding func_main
  histories [] [] names may s old buffer holds enough each within may_ask arrive = all_served refl
  histories [] ([] ∷ chunks) names may s old buffer holds enough each within may_ask arrive =
      quiet (histories [] chunks names may s old buffer holds enough each within may_ask arrive)
  histories [] ((c ∷ chunk) ∷ chunks) names may s old buffer holds enough each within may_ask
        arrive =
      elim arrive [ ]
  histories (a ∷ history) [] names may s old buffer holds enough each within may_ask arrive =
      elim arrive [ ]
  histories (a ∷ history) ([] ∷ chunks) names may s old buffer holds enough each within may_ask
        arrive =
      quiet (
        histories (a ∷ history) chunks names may s old buffer holds enough each within may_ask
          arrive)
  histories (a ∷ history) ((c ∷ chunk) ∷ chunks) names may s old buffer holds enough each within
        may_ask ((text, behind, e, q), arrive) =
      let request = action_request a.action (names_of a) old in
      let eq = serve_request-bytes world a (c ∷ chunk) text behind buffer old s each.0 e q in
      elim (action_handler-Handled world names s a.action a.pipe a.name old fresh holds
        (omega (arith, enough)) each.0 (MayAsk-Within names may a.action a.name within may_ask.0)) [
          | stepped {names'} {s'} ends step holds' ↦
              let leaves = eq ∙ continue-eq _ _ tt s' ends in
              served leaves step holds' (
                subst
                  (λ o.
                    Serves world Returns o names' s' request (overwritten (c ∷ chunk) buffer) chunks
                      history)
                  (sym (continue-eq _ _ request s' leaves))
                  (histories history chunks names' (may_after a.action may a.name) s' request
                    (overwritten (c ∷ chunk) buffer) holds'
                    (omega (
                      arith,
                      enough,
                      Step-length world names s a.name a.pipe (world.open_pipe a.pipe) a.action
                          names' s' step,
                    ))
                    each.1
                    (Step-Within world names may s a.name a.pipe (world.open_pipe a.pipe) a.action
                      names' s' holds.distinct within step)
                    may_ask.1 arrive))
          | out_of_memory other new m ends ↦
              let lost = eq ∙ continue-undefined _ _ ends in
              no_memory other new m lost (continue-undefined _ _ lost)
        ]

-- Let the broker hold a list of names between two requests: its boxes have these names, each once,
-- and no sessions, the directory has their files and no other, and a handle is free. Let managers
-- then ask to create boxes, to remove them and for the list, and publishers for a session with a
-- box, one after another, with words that fit the arrays, file names for the boxes, and pipes that
-- open and take what is written; let none ask to create a name again, unless a request to remove it
-- came between; and let what a publisher's pipe gives be the messages of lines, one for each read. Let the calls of `read`
-- on the register pipe return these requests as the clients write them, or nothing while none of
-- them has the pipe open, and let the walks have a round for each box that there may be. Then
-- `func_main` serves each request as the list of names says. A new name is put at the end and the
-- answer is "4 0 "; or, where no inode is free or the directory has no room, the names are as before
-- and nothing is sent. A name that is removed is taken out and the answer is "4 0 "; one that is not
-- there is answered by "4 -1 Box doesn't exist". The list is sent as one message for each name in
-- order, with the flag 1 for the last one, or as the message for no box. A session of a publisher
-- leaves the names and ends with its pipe closed, whether or not the file takes the lines; without a
-- box of that name its pipe is unlinked and closed. After each request the broker again holds the
-- list; its state is then the one that `serve_request` leaves on the bytes of that request, and the
-- next request is served in it. `func_main` returns after the last one, in the state that this one
-- leaves; or `malloc` gives no box for a request about a name that is not there, and the behaviour
-- is undefined.
pub func_main-Serves :
    (world : World) (history : List Asked) (chunks names : List (List ℕ)) (s : Broker)
    (old : Request) (buffer : List ℕ)
    → GivesFresh world
    → Holds names s
    → length names + length history ≤ world.rounds
    → EachAsked world history
    → IsFresh names history
    → Arrive history chunks
    → Serves world Returns (func_main world old buffer chunks s) names s old buffer chunks history
func_main-Serves world history chunks names s old buffer fresh holds enough each may_ask arrive =
    histories world fresh history chunks names names s old buffer holds enough each (λ n e. e)
      may_ask arrive

-- What a run does behind the requests does not change how they are served.
pub Serves-then :
    {A B : Type 0} (world : World) (Ends : List (List ℕ) → Broker → Run (A × Broker) → Type 0)
    (Ends' : List (List ℕ) → Broker → Run (B × Broker) → Type 0) (o : Run (A × Broker))
    (o' : Run (B × Broker)) (names : List (List ℕ)) (s : Broker) (old : Request) (buffer : List ℕ)
    (chunks : List (List ℕ)) (history : List Asked)
    → ((names : List (List ℕ)) (s : Broker)
        → Holds names s
        → length names ≤ world.rounds
        → Ends names s o
        → Ends' names s o')
    → (o ≡ undefined → o' ≡ undefined)
    → Holds names s
    → length names + length history ≤ world.rounds
    → Serves world Ends o names s old buffer chunks history
    → Serves world Ends' o' names s old buffer chunks history
Serves-then world Ends Ends' o o' names s old buffer chunks history ends lost holds enough
      (all_served e) =
    all_served (ends names s holds (omega (arith, enough)) e)
Serves-then world Ends Ends' o o' names s old buffer chunks history ends lost holds enough
      (quiet {chunks = rest} z) =
    quiet
      (Serves-then world Ends Ends' o o' names s old buffer rest history ends lost holds enough z)
Serves-then world Ends Ends' o o' names s old buffer chunks (a ∷ history) ends lost holds enough
      (served {names' = names'} {s' = s'} {request = request} {chunk = chunk} {chunks = rest} leaves
        step holds' z) =
    served leaves step holds' (
      Serves-then world Ends Ends' o o' names' s' request (overwritten chunk buffer) rest history
        ends lost holds'
        (omega (
          arith,
          enough,
          Step-length world names s a.name a.pipe (world.open_pipe a.pipe) a.action names' s' step,
        ))
        z)
Serves-then world Ends Ends' o o' names s old buffer chunks history ends lost holds enough
      (no_memory other new m run u) =
    no_memory other new m run (lost u)
