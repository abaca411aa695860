-- ===== src/Tests/Handlers.antt =====
-- The theorem on the requests that `func_main` of mbroker/mbroker.c serves, at a manager's "create".
use t_cnico_file_system_pt.Prelude.{ℕ, ◌≡◌, arith, List, ◌++◌}
use t_cnico_file_system_pt.State.Types.{done}
use t_cnico_file_system_pt.Messages.{Request, request_bytes}
use t_cnico_file_system_pt.Clients.Manager.{create, manager_request}
use t_cnico_file_system_pt.Broker.{Broker, pure, continue}
use t_cnico_file_system_pt.Broker.Main.{serve_request}
use t_cnico_file_system_pt.Broker.Main.Handlers.{handler, served_request, serve_request-handler}
use t_cnico_file_system_pt.Tests.Broker.{world}
use t_cnico_file_system_pt.Tests.Clients.{names, named}

serve_request-handler_example :
    (text : List ℕ) × (manager_request (names, create) ≡ done text)
    × ((behind rest : List ℕ) (old : Request) (s : Broker)
        → serve_request world old (request_bytes behind text ++ rest) s
          ≡ continue
              (handler create world (served_request create names old) s)
              (λ u. pure (served_request create names old)))
serve_request-handler_example =
    serve_request-handler world create names named (λ e. ground (arith, e)) (omega arith)
      (omega arith)
