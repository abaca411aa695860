-- ===== src/Tests/Broker.antt =====
-- The theorems on the handlers of mbroker/mbroker.c, at the example's file system and a list of one
-- box, for its file "a".
use t_cnico_file_system_pt.Messages.{serialize_message, send_code}
use t_cnico_file_system_pt.State.Types.{done}
use t_cnico_file_system_pt.Tests.Example.{example_handle, example_file, example-IsHandle}
use t_cnico_file_system_pt.Prelude.{
  ◌≡◌, refl, ap, ◌∙◌, arith, pos, [], ◌∷◌, ◌++◌, true, none, some, Option-cases, inl, inr,
  if◌then◌else◌, ◌==◌,
}
use t_cnico_file_system_pt.Boxes.{Box, Heap, name_eq}
use t_cnico_file_system_pt.Boxes.Chain.{first_named}
use t_cnico_file_system_pt.Clients.{closed}
use t_cnico_file_system_pt.Broker.{Broker, World, finished}
use t_cnico_file_system_pt.Broker.Post.{NeverReturns}
use t_cnico_file_system_pt.Broker.Find.{GivesFresh, IsBroker}
use t_cnico_file_system_pt.Broker.Manage.{create_box, list_box, remove_box}
use t_cnico_file_system_pt.Broker.Manage.Existing.{IsStanding, Rejected, create_box-Rejected}
use t_cnico_file_system_pt.Broker.Manage.Missing.{NotThere, remove_box-NotThere}
use t_cnico_file_system_pt.Broker.Manage.Removal.{Removed, remove_box-Removed}
use t_cnico_file_system_pt.Broker.Manage.Create.{IsUnlisted, Adds, create_box-Adds}
use t_cnico_file_system_pt.Broker.Manage.Listing.{listing, list_box-listing}
use t_cnico_file_system_pt.Broker.Sessions.{reg_subscriber, publish_message}
use t_cnico_file_system_pt.Broker.Sessions.Publisher.{IsLine, Published, publish_message-Published}
use t_cnico_file_system_pt.Text.{show_int, show_nat, emit}
use t_cnico_file_system_pt.Broker.Sessions.Endless.{IsListed, reg_subscriber-NeverReturns}
use t_cnico_file_system_pt.Tests.Example.{
  example, example-IsSound, example-listed, example-unlisted,
}

-- "/a"
abbrev pub box_a : Box
box_a = record { box_name = 47 ∷ 97 ∷ []; has_writer = pos 0; n_readers = pos 0; next = none }

abbrev heap : Heap
heap x = if x == 3 then some box_a else none

abbrev pub world : World
world = record {
  open_pipe = λ path. pos 4;
  makes_pipe = λ path. true;
  accepts = λ fd bytes. true;
  behind = [];
  allocation = record {
    inodes = none;
    inode_states = none;
    bytes = none;
    bytes_size = 0;
    block_states = none;
    open_files = none;
    open_file_states = none;
  };
  malloc = λ h. elim (h 9) [ none ↦ some 9 | some b ↦ none ];
  garbage = box_a;
  buffer = [];
  published = λ path. [];
  rounds = 5;
}

abbrev pub broker : Broker
broker = record { fs = example; heap = heap; head = some 3; events = [] }

pub world-GivesFresh : GivesFresh world
world-GivesFresh h u e = elim (Option-cases (h 9)) [
  | inl z ↦ ap h (ground (arith, e, z)) ∙ z
  | inr w ↦ absurd (ground (arith, e, w.1))
]

pub broker-IsBroker : IsBroker (3 ∷ []) broker
broker-IsBroker = record {
  sound = example-IsSound;
  unlocked = refl;
  chain = (refl, box_a, refl, refl);
  simple = (tt, tt);
}

unlisted : IsUnlisted world (3 ∷ []) broker (47 ∷ 98 ∷ []) 9 98 []
unfolding name_eq first_named
unlisted = record {
  not_found = refl;
  fits = omega arith;
  allocated = refl;
  is_path = refl;
  file_name = record {
    bytes = ((λ e. omega arith), tt);
    nonempty = λ e. ground (arith, e);
    fits = omega arith;
  };
  unlinked = example-unlisted;
}

listed : IsListed (3 ∷ []) broker (47 ∷ 97 ∷ []) 3 box_a 1
unfolding name_eq first_named
listed = record {
  found = refl;
  contents = refl;
  has_file = refl;
  first = 97;
  rest = [];
  is_path = refl;
  linked = example-listed;
}

create_box-Adds_example : Adds world (3 ∷ []) broker (pos 4) 9 (98 ∷ []) (
    create_box world
      (record { code = pos 3; client_pipe = 112 ∷ []; box_name = 47 ∷ 98 ∷ [] })
      broker)
create_box-Adds_example =
    create_box-Adds world (record { code = pos 3; client_pipe = 112 ∷ []; box_name = 47 ∷ 98 ∷ [] })
      4 9 98 [] world-GivesFresh broker-IsBroker (omega arith) refl (λ bytes. refl) unlisted

remove_box-NotThere_example : NotThere world (3 ∷ []) broker (pos 4) 9 (
    remove_box world
      (record { code = pos 5; client_pipe = 112 ∷ []; box_name = 47 ∷ 98 ∷ [] })
      broker)
remove_box-NotThere_example =
    remove_box-NotThere world
      (record { code = pos 5; client_pipe = 112 ∷ []; box_name = 47 ∷ 98 ∷ [] }) 9 98 []
      world-GivesFresh broker-IsBroker (omega arith) refl (λ bytes. refl) unlisted

list_box-listing_example :
    list_box world (record { code = pos 7; client_pipe = 112 ∷ []; box_name = [] }) broker
    ≡ finished (
      tt,
      record broker {
        events = ([] ++ listing world (pos 4) heap (3 ∷ [])) ++ (closed (pos 4) ∷ []);
      },
    )
list_box-listing_example =
    list_box-listing world (record { code = pos 7; client_pipe = 112 ∷ []; box_name = [] })
      broker-IsBroker (omega arith) ((λ b e. ground (arith, e)), tt) refl (λ bytes. refl)

reg_subscriber-NeverReturns_example : NeverReturns (
    reg_subscriber world
      (record { code = pos 2; client_pipe = 112 ∷ []; box_name = 47 ∷ 97 ∷ [] })
      broker)
reg_subscriber-NeverReturns_example =
    reg_subscriber-NeverReturns world
      (record { code = pos 2; client_pipe = 112 ∷ []; box_name = 47 ∷ 97 ∷ [] }) 3 box_a 1 2
      world-GivesFresh broker-IsBroker (omega arith) refl listed refl

pub standing : IsStanding (3 ∷ []) broker (47 ∷ 97 ∷ []) 3 box_a 97 []
unfolding name_eq first_named
standing = record {
  found = refl;
  contents = refl;
  is_path = refl;
  inumber = 1;
  linked = example-listed;
  free_handle = 2;
  is_free = refl;
}

create_box-Rejected_example : Rejected world broker (pos 4) 3 (
    create_box world
      (record { code = pos 3; client_pipe = 112 ∷ []; box_name = 47 ∷ 97 ∷ [] })
      broker)
create_box-Rejected_example =
    create_box-Rejected world
      (record { code = pos 3; client_pipe = 112 ∷ []; box_name = 47 ∷ 97 ∷ [] }) 3 box_a 97 []
      world-GivesFresh broker-IsBroker (omega arith) refl (λ bytes. refl) standing

remove_box-Removed_example : Removed world (3 ∷ []) broker (pos 4) 3 (97 ∷ []) (
    remove_box world
      (record { code = pos 5; client_pipe = 112 ∷ []; box_name = 47 ∷ 97 ∷ [] })
      broker)
remove_box-Removed_example =
    remove_box-Removed world
      (record { code = pos 5; client_pipe = 112 ∷ []; box_name = 47 ∷ 97 ∷ [] }) 3 box_a 97 []
      world-GivesFresh broker-IsBroker (omega arith) refl (λ bytes. refl) standing
      ((λ e. omega arith), tt) refl refl

-- "9 hi" with a newline
pub hi_text :
    serialize_message send_code ((104 ∷ 105 ∷ []) ++ (10 ∷ []))
    ≡ done (57 ∷ 32 ∷ 104 ∷ 105 ∷ 10 ∷ [])
unfolding serialize_message show_int show_nat emit
hi_text = refl

pub hi : IsLine (104 ∷ 105 ∷ []) (10 ∷ [])
hi = record {
  string = ((λ e. omega arith), ((λ e. omega arith), ((λ e. omega arith), tt)));
  one_line = (refl, (refl, tt));
  starts = refl;
  ends = refl;
  fits = omega arith;
  one_end = omega arith;
}

publish_message-Published_example :
    Published broker 0 1 example_handle example_file
      (104 ∷ 105 ∷ [])
      (publish_message (pos 0) (pos 0) [] ((57 ∷ 32 ∷ 104 ∷ 105 ∷ 10 ∷ []) ++ (0 ∷ [])) broker)
publish_message-Published_example =
    publish_message-Published broker (pos 0) [] (104 ∷ 105 ∷ []) (10 ∷ [])
      (57 ∷ 32 ∷ 104 ∷ 105 ∷ 10 ∷ []) [] example-IsSound refl example-IsHandle hi hi_text
