-- ===== src/Broker/Service/Handled.antt =====
-- How a handler of mbroker/mbroker.c ends, as a step of the service.
use t_cnico_file_system_pt.Prelude.{ℕ, ◌≡◌, ◌≢◌, ap, ◌∙◌, ℤ, List, false, none, get_elem?}
use t_cnico_file_system_pt.Broker.{Broker, World, Run, finished, undefined}
use t_cnico_file_system_pt.Broker.Sessions.Session.Registered.{Registered}
use t_cnico_file_system_pt.Broker.Service.Lists.{has}
use t_cnico_file_system_pt.Broker.Service.Boxes.{AreNamed-same}
use t_cnico_file_system_pt.Broker.Service.Listed.{IsListed-same}
use t_cnico_file_system_pt.Broker.Service.{Action, to_list, Holds, Step}

-- How a handler ends.
pub data Handled (world : World) (names : List (List ℕ)) (s : Broker) (n pipe : List ℕ) (fd : ℤ)
    (c : Action) (o : Run (Unit {0} × Broker)) : Type 0 where
  stepped :
      {names' : List (List ℕ)} {s' : Broker}
      → o ≡ finished (tt, s')
      → Step world names s n pipe fd c names' s'
      → Holds names' s'
      → Handled world names s n pipe fd c o
  out_of_memory :
      c ≢ to_list
      → has names n ≡ false
      → world.malloc s.heap ≡ none
      → o ≡ undefined
      → Handled world names s n pipe fd c o

-- A publisher leaves the list of names.
pub Registered-Holds :
    {names : List (List ℕ)} {s : Broker} (holds : Holds names s) (o : Run (Unit {0} × Broker))
    (r : Registered holds.boxes s o)
    → Holds names r.result
Registered-Holds {names} {s} holds o r = record {
  boxes = holds.boxes;
  in_order = r.in_order;
  named = AreNamed-same s.heap r.result.heap holds.boxes names holds.named r.same_boxes;
  distinct = holds.distinct;
  listed = IsListed-same names s r.result r.same_directory holds.listed;
  free_handle = holds.free_handle;
  is_free = ap (λ t. get_elem? t holds.free_handle) r.same_handles ∙ holds.is_free;
}
