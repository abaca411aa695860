-- ===== src/Broker/Service/Actions.antt =====
-- The handlers of the requests of mbroker/mbroker.c that clients may ask for.
use t_cnico_file_system_pt.Prelude.{ℕ, ◌≤◌, refl, pos, List, [], ◌∷◌, length}
use t_cnico_file_system_pt.Messages.{Request}
use t_cnico_file_system_pt.Clients.{Names}
use t_cnico_file_system_pt.Clients.Manager.{create, remove, list}
use t_cnico_file_system_pt.Broker.Main.Handlers.{served_request, publisher_request}
use t_cnico_file_system_pt.Broker.{Broker, World, Serving}
use t_cnico_file_system_pt.Broker.Find.{GivesFresh}
use t_cnico_file_system_pt.Broker.Manage.{create_box, remove_box, list_box}
use t_cnico_file_system_pt.Broker.Sessions.{reg_publisher}
use t_cnico_file_system_pt.Broker.Service.{
  Action, to_create, to_remove, to_list, to_publish, Holds, IsAsked, MayAsk, names_of,
}
use t_cnico_file_system_pt.Broker.Service.Steps.{
  create_box-Handled, remove_box-Handled, list_box-Handled, reg_publisher-Handled,
}
use t_cnico_file_system_pt.Broker.Service.Handled.{Handled}

-- The handler of an action, and the request that it gets.
abbrev pub action_handler : Action → World → Request → Serving (Unit {0})
action_handler to_create = create_box
action_handler to_remove = remove_box
action_handler to_list = list_box
action_handler to_publish = reg_publisher

abbrev pub action_request : Action → Names → Request → Request
action_request to_create names old = served_request create names old
action_request to_remove names old = served_request remove names old
action_request to_list names old = served_request list names old
action_request to_publish names old = publisher_request names

-- The handler of an action on a request that may be asked.
pub action_handler-Handled :
    (world : World) (names : List (List ℕ)) (s : Broker) (c : Action) (pipe name : List ℕ)
    (old : Request)
    → GivesFresh world
    → Holds names s
    → length names ≤ world.rounds
    → IsAsked world (record { action = c; pipe = pipe; name = name })
    → MayAsk c names name
    → Handled world names s name pipe (world.open_pipe pipe) c (
        action_handler c world
          (action_request c (names_of (record { action = c; pipe = pipe; name = name })) old)
          s)
action_handler-Handled world names s to_create pipe [] old fresh holds enough asked may =
    absurd (asked.has_name.nonempty refl)
action_handler-Handled world names s to_create pipe (first ∷ rest) old fresh holds enough asked
      may =
    rw asked.opens (
      create_box-Handled world fresh holds enough pipe asked.number asked.opens asked.takes (pos 3)
        first rest asked.has_name asked.name_fits may)
action_handler-Handled world names s to_remove pipe [] old fresh holds enough asked may =
    absurd (asked.has_name.nonempty refl)
action_handler-Handled world names s to_remove pipe (first ∷ rest) old fresh holds enough asked
      may =
    rw asked.opens (
      remove_box-Handled world fresh holds enough pipe asked.number asked.opens asked.takes (pos 5)
        first rest asked.has_name asked.name_fits)
action_handler-Handled world names s to_list pipe name old fresh holds enough asked may =
    rw asked.opens (
      list_box-Handled world fresh holds enough pipe asked.number asked.opens asked.takes
        (record old { code = pos 7; client_pipe = pipe }) name refl)
action_handler-Handled world names s to_publish pipe [] old fresh holds enough asked may =
    absurd (asked.has_name.nonempty refl)
action_handler-Handled world names s to_publish pipe (first ∷ rest) old fresh holds enough asked
      may =
    rw asked.opens (
      reg_publisher-Handled world fresh holds enough pipe asked.number asked.opens asked.takes
        (pos 1) first rest asked.has_name asked.name_fits asked.speaks.0 asked.speaks.1)
