-- ===== src/Tests/Service.antt =====
-- The theorems on the broker of mbroker/mbroker.c as a service, at five requests: "a" is created, a
-- publisher writes "hi" to it, the list is asked for, and "a" is removed twice; in between no client
-- has the pipe open.
use t_cnico_file_system_pt.Prelude.{
  ℕ, ◌≡◌, refl, arith, pos, List, [], ◌∷◌, ◌++◌, replicate, inr, length-replicate, none, some,
}
use t_cnico_file_system_pt.State.Types.{State, Inode, OpenFileEntry, done, t_file, taken}
use t_cnico_file_system_pt.State.Init.{Allocation}
use t_cnico_file_system_pt.State.Dir.Laws.{IsFileName}
use t_cnico_file_system_pt.Operations.Setup.{tfs_init, tfs_default_params}
use t_cnico_file_system_pt.Operations.Setup.Fresh.{IsFresh, tfs_init-IsFresh}
use t_cnico_file_system_pt.Operations.Setup.Fresh.Tables.{IsAllocated}
use t_cnico_file_system_pt.Boxes.{name_eq}
use t_cnico_file_system_pt.Text.{
  show_int, show_nat, emit, scan_int, scan_digits, skip_space, read_digits,
}
use t_cnico_file_system_pt.Messages.{Request, serialize, request_bytes}
use t_cnico_file_system_pt.Clients.{unlinked}
use t_cnico_file_system_pt.Clients.Manager.{manager_request}
use t_cnico_file_system_pt.Broker.{Broker, World}
use t_cnico_file_system_pt.Broker.Main.{func_main, broker_main, atoi}
use t_cnico_file_system_pt.Broker.Service as Service
use t_cnico_file_system_pt.Broker.Service.Lists.{has, forget}
use t_cnico_file_system_pt.Broker.Service.{
  Action, to_create, to_remove, to_list, to_publish, Speaks, Asked, IsAsked, HasName, Holds,
  EachAsked, Arrive, Serves, Returns,
}
use t_cnico_file_system_pt.Broker.Service.Histories.{func_main-Serves}
use t_cnico_file_system_pt.Broker.Service.Lifetime.{ShutDown, fresh-Holds, broker_main-Serves}
use t_cnico_file_system_pt.Tests.Broker.{world, world-GivesFresh, hi, hi_text}
use t_cnico_file_system_pt.Tests.Setup.{unset}

abbrev blank_inode : Inode
blank_inode = record { i_node_type = t_file; i_size = 77; i_data_block = pos 9 }

abbrev blank_entry : OpenFileEntry
blank_entry = record { of_inumber = pos 8; of_offset = 99 }

abbrev memory : Allocation
memory = record {
  inodes = some (replicate 64 blank_inode);
  inode_states = some (replicate 64 taken);
  bytes = some (λ a. 55);
  bytes_size = 1048576;
  block_states = some (replicate 1024 taken);
  open_files = some (replicate 16 blank_entry);
  open_file_states = some (replicate 16 taken);
}

memory-IsAllocated : IsAllocated memory tfs_default_params
memory-IsAllocated = record {
  inodes_given = refl;
  inode_states_given = refl;
  bytes_given = refl;
  block_states_given = refl;
  open_files_given = refl;
  open_file_states_given = refl;
  inodes = length-replicate 64 blank_inode;
  inode_states = length-replicate 64 taken;
  bytes = omega arith;
  block_states = length-replicate 1024 taken;
  open_files = length-replicate 16 blank_entry;
  open_file_states = length-replicate 16 taken;
  some_inodes = omega arith;
  some_blocks = omega arith;
  some_bytes = omega arith;
  inodes_fit = omega arith;
  blocks_fit = omega arith;
  bytes_fit = omega arith;
}

abbrev host : World
host = record world {
  allocation = memory;
  published = λ path. ((32 ∷ 57 ∷ 32 ∷ 104 ∷ 105 ∷ 10 ∷ 0 ∷ []) ∷ []);
}

abbrev history : List Asked
history =
    record { action = to_create; pipe = 112 ∷ []; name = 97 ∷ [] }
    ∷ record { action = to_publish; pipe = 112 ∷ []; name = 97 ∷ [] }
    ∷ record { action = to_list; pipe = 112 ∷ []; name = [] }
    ∷ record { action = to_remove; pipe = 112 ∷ []; name = 97 ∷ [] }
    ∷ record { action = to_remove; pipe = 112 ∷ []; name = 97 ∷ [] }
    ∷ []

-- "3 p /a", "1 p /a", "7 p " and "5 p /a", with their NUL.
abbrev chunks : List (List ℕ)
chunks =
    (51 ∷ 32 ∷ 112 ∷ 32 ∷ 47 ∷ 97 ∷ 0 ∷ [])
    ∷ (49 ∷ 32 ∷ 112 ∷ 32 ∷ 47 ∷ 97 ∷ 0 ∷ [])
    ∷ (55 ∷ 32 ∷ 112 ∷ 32 ∷ 0 ∷ [])
    ∷ []
    ∷ (53 ∷ 32 ∷ 112 ∷ 32 ∷ 47 ∷ 97 ∷ 0 ∷ [])
    ∷ (53 ∷ 32 ∷ 112 ∷ 32 ∷ 47 ∷ 97 ∷ 0 ∷ [])
    ∷ []

history-Arrive : Arrive history chunks
unfolding manager_request serialize show_int show_nat emit request_bytes
history-Arrive = (
  (_, [], refl, refl),
  ((_, [], refl, refl), ((_, [], refl, refl), ((_, [], refl, refl), ((_, [], refl, refl), tt)))),
)

a-IsFileName : IsFileName (97 ∷ [])
a-IsFileName = record {
  bytes = ((λ e. omega arith), tt);
  nonempty = λ e. ground (arith, e);
  fits = omega arith;
}

about_a :
    (c : Action)
    → HasName c (97 ∷ [])
    → Speaks host c (112 ∷ [])
    → IsAsked host (record { action = c; pipe = 112 ∷ []; name = 97 ∷ [] })
about_a c h w = record {
  is_named = record {
    pipe_string = ((λ e. omega arith), tt);
    pipe_word = record { solid = (refl, tt); nonempty = λ e. ground (arith, e) };
    box_string = ((λ e. omega arith), ((λ e. omega arith), tt));
    box_solid = (refl, (refl, tt));
  };
  pipe_fits = omega arith;
  name_fits = omega arith;
  has_name = h;
  speaks = w;
  number = 4;
  opens = refl;
  takes = λ bytes. refl;
}

about_all : IsAsked host (record { action = to_list; pipe = 112 ∷ []; name = [] })
about_all = record {
  is_named = record {
    pipe_string = ((λ e. omega arith), tt);
    pipe_word = record { solid = (refl, tt); nonempty = λ e. ground (arith, e) };
    box_string = ((λ e. omega arith), tt);
    box_solid = (refl, tt);
  };
  pipe_fits = omega arith;
  name_fits = omega arith;
  has_name = tt;
  speaks = tt;
  number = 4;
  opens = refl;
  takes = λ bytes. refl;
}

history-EachAsked : EachAsked host history
history-EachAsked = (
  about_a to_create a-IsFileName tt,
  (
    about_a to_publish a-IsFileName (
      (104 ∷ 105 ∷ [], 10 ∷ []) ∷ [],
      (record { is_line = hi; text = _; behind = []; serialized = hi_text; shape = inr refl }, tt),
    ),
    (about_all, (about_a to_remove a-IsFileName tt, (about_a to_remove a-IsFileName tt, tt))),
  ),
)

history-IsFresh : Service.IsFresh [] history
unfolding has forget name_eq
history-IsFresh = (refl, (tt, (tt, (tt, (tt, tt)))))

abbrev before : Request
before = record { code = pos 0; client_pipe = []; box_name = [] }

-- The broker before and after `tfs_init`.
abbrev started : Broker
started = record { fs = unset; heap = λ x. none; head = none; events = [] }

set_up :
    (fs : State) × (tfs_init memory none unset ≡ done (pos 0, fs))
    × IsFresh fs
    × (fs.params ≡ tfs_default_params)
    × (fs.mutex_locked ≡ unset.mutex_locked)
set_up = tfs_init-IsFresh memory none unset memory-IsAllocated refl

abbrev ready : Broker
ready = record started { fs = set_up.0 }

func_main-Serves_example :
    Serves host Returns (func_main host before [] chunks ready) [] ready before [] chunks history
func_main-Serves_example =
    func_main-Serves host history chunks [] ready before [] world-GivesFresh
      (fresh-Holds ready set_up.2 set_up.3 set_up.4 refl) (omega arith) history-EachAsked
      history-IsFresh history-Arrive

one_session-atoi : atoi (49 ∷ []) ≡ done (pos 1)
unfolding atoi scan_int scan_digits skip_space read_digits
one_session-atoi = refl

broker_main-Serves_example :
    (fs : State) × (tfs_init memory none unset ≡ done (pos 0, fs))
    × IsFresh fs
    × Serves host
        (ShutDown host (114 ∷ []))
        (broker_main host ((109 ∷ []) ∷ (114 ∷ []) ∷ (49 ∷ []) ∷ []) before [] chunks started)
        []
        (record started { fs = fs; events = [] ++ (unlinked (114 ∷ []) ∷ []) })
        before
        []
        chunks
        history
broker_main-Serves_example =
    broker_main-Serves host (109 ∷ []) (114 ∷ []) (49 ∷ []) history before [] chunks started
      world-GivesFresh
      (record {
        sessions = pos 1;
        is_number = one_session-atoi;
        positive = refl;
        pipe_fits = refl;
        makes_pipe = refl;
        opens = refl;
        allocated = memory-IsAllocated;
        not_set_up = refl;
        unlocked = refl;
        no_boxes = refl;
      })
      (omega arith) history-EachAsked history-IsFresh history-Arrive
