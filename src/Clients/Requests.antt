-- ===== src/Clients/Requests.antt =====
-- The requests that publisher/pub.c, subscriber/sub.c and manager/manager.c send, and how
-- mbroker/mbroker.c reads them.
use t_cnico_file_system_pt.Prelude.{
  ℕ, ◌≤◌, ◌<◌, ◌≡◌, arith, ℤ, pos, is_minus_one, List, [], ◌∷◌, ◌++◌, true, false, length, some,
}
use t_cnico_file_system_pt.State.Bytes.{IsInt}
use t_cnico_file_system_pt.State.Dir.Listing.{IsCString}
use t_cnico_file_system_pt.Text.{c_string}
use t_cnico_file_system_pt.Text.Words.{IsSolid, IsWord}
use t_cnico_file_system_pt.Messages.{
  Request, serialize, scan_request, request_bytes, register_publisher, register_subscriber,
  pipe_name_size, box_name_size,
}
use t_cnico_file_system_pt.Messages.RoundTrip.{Received, IsRequest, serialize-Received}
use t_cnico_file_system_pt.Clients.{
  Surroundings, Ended, after, sent, Names, register, send_request, client_arguments, publish,
  subscribe, pub_main, sub_main,
}
use t_cnico_file_system_pt.Clients.Manager.{
  Command, create, remove, list, Locals, checked, manager_arguments, manager_request, await_answer,
  manager_main,
}

-- The register pipe opens and takes what is written, and the personal pipe can be made.
pub record IsReady (world : Surroundings) (names : Names) : Type 0 where
  pub opens : is_minus_one (world.open_pipe names.register_pipe) ≡ false
  pub makes : world.makes_pipe names.personal_pipe ≡ true
  pub takes : (bytes : List ℕ) → world.accepts (world.open_pipe names.register_pipe) bytes ≡ true

-- The names are words, the box's with its slash.
pub record IsNamed (names : Names) : Type 0 where
  pub pipe_string : IsCString names.personal_pipe
  pub pipe_word : IsWord names.personal_pipe
  pub box_string : IsCString names.box_name
  pub box_solid : IsSolid names.box_name

-- A client writes a request, then does `session`, and the broker reads the request.
pub record Requests (world : Surroundings) (names : Names) (code : ℤ) (box : List ℕ)
    (session o : Ended) : Type 0 where
  pub text : List ℕ
  pub writes :
      o
      ≡ after (sent (world.open_pipe names.register_pipe) (request_bytes world.behind text)) session
  pub reads : (rest : List ℕ) → c_string (request_bytes world.behind text ++ rest) ≡ some text
  pub received : (old : Request) → Received old code names.personal_pipe box (scan_request old text)

register-Requests :
    (world : Surroundings) (names : Names) (code : ℤ) (box : List ℕ) (session : Ended)
    → IsReady world names
    → IsRequest code names.personal_pipe box
    → IsSolid box
    → Requests world names code box session
        (register world names (serialize code names.personal_pipe box) session)
unfolding register send_request
register-Requests world names code box session ready r solid =
    let (text, e, reads, received) = serialize-Received code names.personal_pipe box r solid in
    record {
      text = text;
      writes =
          ground
            (arith, e, ready.opens, ready.makes, ready.takes (request_bytes world.behind text));
      reads = reads world.behind;
      received = received;
    }

-- What the checks of the arguments let through.
client_arguments-fits :
    (argv : List (List ℕ)) (names : Names)
    → client_arguments argv ≡ some names
    → (length names.personal_pipe < pipe_name_size) × (length names.box_name ≤ box_name_size)
unfolding client_arguments
client_arguments-fits (a ∷ b ∷ c ∷ d ∷ []) names h = ground (arith, h)
client_arguments-fits [] names h = absurd (ground (arith, h))
client_arguments-fits (a ∷ []) names h = absurd (ground (arith, h))
client_arguments-fits (a ∷ b ∷ []) names h = absurd (ground (arith, h))
client_arguments-fits (a ∷ b ∷ c ∷ []) names h = absurd (ground (arith, h))
client_arguments-fits (a ∷ b ∷ c ∷ d ∷ e ∷ r) names h = absurd (ground (arith, h))

checked-fits :
    (a b c d : List ℕ) (names : Names) (command : Command)
    → checked a b c d ≡ some (names, command)
    → (length names.personal_pipe < pipe_name_size) × (length names.box_name ≤ box_name_size)
unfolding checked
checked-fits a b c d names command h = ground (arith, h)

manager_arguments-fits :
    (argv : List (List ℕ)) (names : Names) (command : Command)
    → manager_arguments argv ≡ some (names, command)
    → (length names.personal_pipe < pipe_name_size) × (length names.box_name ≤ box_name_size)
unfolding manager_arguments
manager_arguments-fits (p ∷ a ∷ b ∷ c ∷ []) names command h = checked-fits a b c [] names command h
manager_arguments-fits (p ∷ a ∷ b ∷ c ∷ d ∷ []) names command h =
    checked-fits a b c d names command h
manager_arguments-fits [] names command h = absurd (ground (arith, h))
manager_arguments-fits (a ∷ []) names command h = absurd (ground (arith, h))
manager_arguments-fits (a ∷ b ∷ []) names command h = absurd (ground (arith, h))
manager_arguments-fits (a ∷ b ∷ c ∷ []) names command h = absurd (ground (arith, h))
manager_arguments-fits (a ∷ b ∷ c ∷ d ∷ e ∷ f ∷ r) names command h = absurd (ground (arith, h))

request_of :
    {names : Names} (code : ℤ)
    → IsInt code
    → IsNamed names
    → (length names.personal_pipe < pipe_name_size) × (length names.box_name ≤ box_name_size)
    → IsRequest code names.personal_pipe names.box_name
request_of code z n fits = record {
  is_int = z;
  pipe_string = n.pipe_string;
  pipe_word = n.pipe_word;
  pipe_fits = fits.0;
  box_string = n.box_string;
  box_fits = fits.1;
}

-- Let the arguments of a publisher pass its checks, with words for the personal pipe and the box,
-- and let the register pipe and the personal pipe be at hand. The first thing that the publisher
-- does is to write one request, before it goes on with its session. The broker finds that request
-- in the bytes, whatever its buffer holds behind them, and reads from it code 1 and the two names,
-- the box's with its slash; but if the name of the box has 31 bytes, it writes past its array.
pub pub_main-Requests :
    (world : Surroundings) (argv lines : List (List ℕ)) (names : Names)
    → client_arguments argv ≡ some names
    → IsNamed names
    → IsReady world names
    → Requests world names register_publisher names.box_name
        (publish world names.personal_pipe lines)
        (pub_main world argv lines)
unfolding pub_main
pub_main-Requests world argv lines names args n ready =
    rw (args, pub_main)
      (register-Requests world names register_publisher names.box_name
        (publish world names.personal_pipe lines) ready
        (request_of register_publisher (omega arith) n (client_arguments-fits argv names args))
        n.box_solid)

-- Let the arguments of a subscriber pass its checks, with words for the personal pipe and the box,
-- and let the register pipe and the personal pipe be at hand. The first thing that the subscriber
-- does is to write one request, before it goes on with its session. The broker finds that request
-- in the bytes, whatever its buffer holds behind them, and reads from it code 2 and the two names,
-- the box's with its slash; but if the name of the box has 31 bytes, it writes past its array.
pub sub_main-Requests :
    (world : Surroundings) (argv : List (List ℕ)) (code : ℤ) (output : List ℕ)
    (chunks : List (List ℕ)) (names : Names)
    → client_arguments argv ≡ some names
    → IsNamed names
    → IsReady world names
    → Requests world names register_subscriber names.box_name
        (subscribe world names.personal_pipe code output chunks)
        (sub_main world argv code output chunks)
unfolding sub_main
sub_main-Requests world argv code output chunks names args n ready =
    rw (args, sub_main)
      (register-Requests world names register_subscriber names.box_name
        (subscribe world names.personal_pipe code output chunks) ready
        (request_of register_subscriber (omega arith) n (client_arguments-fits argv names args))
        n.box_solid)

-- The code and the box name of the manager's requests.
abbrev pub command_code : Command → ℤ
command_code create = pos 3
command_code remove = pos 5
command_code list = pos 7

abbrev pub command_box : Command → List ℕ → List ℕ
command_box create box = box
command_box remove box = box
command_box list box = []

manager_request-Requests :
    (world : Surroundings) (names : Names) (session : Ended)
    → IsNamed names
    → IsReady world names
    → (length names.personal_pipe < pipe_name_size) × (length names.box_name ≤ box_name_size)
    → (c : Command)
    → Requests world names
        (command_code c)
        (command_box c names.box_name)
        session
        (register world names (manager_request (names, c)) session)
unfolding manager_request
manager_request-Requests world names session n ready fits create =
    register-Requests world names (pos 3) names.box_name session ready
      (request_of (pos 3) (omega arith) n fits) n.box_solid
manager_request-Requests world names session n ready fits remove =
    register-Requests world names (pos 5) names.box_name session ready
      (request_of (pos 5) (omega arith) n fits) n.box_solid
manager_request-Requests world names session n ready fits list =
    register-Requests world names (pos 7) [] session ready
      (record {
        is_int = omega arith;
        pipe_string = n.pipe_string;
        pipe_word = n.pipe_word;
        pipe_fits = fits.0;
        box_string = tt;
        box_fits = omega arith;
      })
      tt

-- Let the arguments of a manager pass its checks, with words for the personal pipe and the box, and
-- let the register pipe and the personal pipe be at hand. The first thing that the manager does is
-- to write one request, before it waits for the answer. The broker finds that request in the bytes,
-- whatever its buffer holds behind them, and reads from it the name of the pipe and the code and
-- the box of the command: 3 for `create` and 5 for `remove`, with the box's name and its slash, and
-- 7 for `list`, with the box name of the request before. If the name of the box has 31 bytes, it
-- writes past its array.
pub manager_main-Requests :
    (world : Surroundings) (argv : List (List ℕ)) (locals : Locals) (chunks : List (List ℕ))
    (names : Names) (command : Command)
    → manager_arguments argv ≡ some (names, command)
    → IsNamed names
    → IsReady world names
    → Requests world names
        (command_code command)
        (command_box command names.box_name)
        (await_answer world names.personal_pipe locals chunks)
        (manager_main world argv locals chunks)
unfolding manager_main
manager_main-Requests world argv locals chunks names command args n ready =
    rw (args, manager_main)
      (manager_request-Requests world names (await_answer world names.personal_pipe locals chunks) n
        ready (manager_arguments-fits argv names command args) command)
