-- ===== src/Tests/Clients.antt =====
-- The theorems on the requests of the clients, at the arguments "m r p b" and "m r p create b".
use t_cnico_file_system_pt.Prelude.{ℕ, ◌≡◌, refl, arith, pos, List, [], ◌∷◌, true, some}
use t_cnico_file_system_pt.Messages.{register_publisher, register_subscriber}
use t_cnico_file_system_pt.Clients.{
  Surroundings, Names, client_arguments, publish, pub_main, subscribe, sub_main,
}
use t_cnico_file_system_pt.Clients.Manager.{
  create, Locals, checked, command_of, manager_arguments, await_answer, manager_main,
}
use t_cnico_file_system_pt.Boxes.{name_eq}
use t_cnico_file_system_pt.Clients.Requests.{
  IsReady, IsNamed, Requests, pub_main-Requests, sub_main-Requests, manager_main-Requests,
}

abbrev surroundings : Surroundings
surroundings = record {
  open_pipe = λ path. pos 3;
  makes_pipe = λ path. true;
  accepts = λ fd bytes. true;
  behind = [];
}

abbrev pub names : Names
names = record { register_pipe = 114 ∷ []; personal_pipe = 112 ∷ []; box_name = 47 ∷ 98 ∷ [] }

ready : IsReady surroundings names
ready = record { opens = refl; makes = refl; takes = λ bytes. refl }

pub named : IsNamed names
named = record {
  pipe_string = ((λ e. omega arith), tt);
  pipe_word = record { solid = (refl, tt); nonempty = λ e. ground (arith, e) };
  box_string = ((λ e. omega arith), ((λ e. omega arith), tt));
  box_solid = (refl, (refl, tt));
}

abbrev client_argv : List (List ℕ)
client_argv = (109 ∷ []) ∷ (114 ∷ []) ∷ (112 ∷ []) ∷ (98 ∷ []) ∷ []

client_argv-eq : client_arguments client_argv ≡ some names
unfolding client_arguments
client_argv-eq = refl

pub_main-Requests_example :
    Requests surroundings names register_publisher
      (47 ∷ 98 ∷ [])
      (publish surroundings (112 ∷ []) ((104 ∷ 10 ∷ []) ∷ []))
      (pub_main surroundings client_argv ((104 ∷ 10 ∷ []) ∷ []))
pub_main-Requests_example =
    pub_main-Requests surroundings client_argv ((104 ∷ 10 ∷ []) ∷ []) names client_argv-eq named
      ready

sub_main-Requests_example :
    Requests surroundings names register_subscriber
      (47 ∷ 98 ∷ [])
      (subscribe surroundings (112 ∷ []) (pos 0) [] [])
      (sub_main surroundings client_argv (pos 0) [] [])
sub_main-Requests_example =
    sub_main-Requests surroundings client_argv (pos 0) [] [] names client_argv-eq named ready

abbrev manager_argv : List (List ℕ)
manager_argv =
    (109 ∷ []) ∷ (114 ∷ []) ∷ (112 ∷ []) ∷ (99 ∷ 114 ∷ 101 ∷ 97 ∷ 116 ∷ 101 ∷ []) ∷ (98 ∷ []) ∷ []

manager_argv-eq : manager_arguments manager_argv ≡ some (names, create)
unfolding manager_arguments checked command_of name_eq
manager_argv-eq = refl

abbrev locals : Locals
locals = record {
  code = pos 0;
  input = [];
  answer = record { return_code = pos 0; error_msg = [] };
  listed = record { last = pos 0; name = []; size = 0; publishers = 0; subscribers = 0 };
  buffer = [];
}

manager_main-Requests_example :
    Requests surroundings names
      (pos 3)
      (47 ∷ 98 ∷ [])
      (await_answer surroundings (112 ∷ []) locals ((52 ∷ 32 ∷ 48 ∷ 32 ∷ 0 ∷ []) ∷ []))
      (manager_main surroundings manager_argv locals ((52 ∷ 32 ∷ 48 ∷ 32 ∷ 0 ∷ []) ∷ []))
manager_main-Requests_example =
    manager_main-Requests surroundings manager_argv locals ((52 ∷ 32 ∷ 48 ∷ 32 ∷ 0 ∷ []) ∷ []) names
      create manager_argv-eq named ready
