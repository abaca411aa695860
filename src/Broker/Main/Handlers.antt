-- ===== src/Broker/Main/Handlers.antt =====
-- From the bytes of a manager's request to its handler, in `func_main` of mbroker/mbroker.c.
use t_cnico_file_system_pt.Prelude.{
  ℕ, ◌≤◌, ◌<◌, ◌≡◌, ◌≢◌, refl, ap, ◌∙◌, arith, pos, List, [], ◌∷◌, ◌++◌, false, some, length, ◌==◌,
}
use t_cnico_file_system_pt.State.Types.{done}
use t_cnico_file_system_pt.State.Dir.Listing.{IsCString}
use t_cnico_file_system_pt.State.Bytes.{IsInt}
use t_cnico_file_system_pt.Text.{c_string}
use t_cnico_file_system_pt.Text.Words.{IsSolid}
use t_cnico_file_system_pt.Messages.{
  Request, serialize, register_publisher, scan_request, request_bytes, box_name_size,
  pipe_name_size,
}
use t_cnico_file_system_pt.Messages.RoundTrip.{
  Received, whole, no_box, overflow, IsRequest, serialize-Received,
}
use t_cnico_file_system_pt.Clients.{Names}
use t_cnico_file_system_pt.Clients.Manager.{Command, create, remove, list, manager_request}
use t_cnico_file_system_pt.Clients.Requests.{command_code, command_box, IsNamed}
use t_cnico_file_system_pt.Broker.{Broker, World, Serving, pure, continue}
use t_cnico_file_system_pt.Broker.Post.{continue-eq, value-eq}
use t_cnico_file_system_pt.Broker.Manage.{create_box, remove_box, list_box}
use t_cnico_file_system_pt.Broker.Sessions.{string_in, reg_publisher}
use t_cnico_file_system_pt.Broker.Main.{serve_request, dispatch}

-- The handler of a command, and the request that it gets: a `list` has the box name that stood
-- there before.
abbrev pub handler : Command → World → Request → Serving (Unit {0})
handler create = create_box
handler remove = remove_box
handler list = list_box

abbrev pub served_request : Command → Names → Request → Request
served_request create names old = record {
  code = pos 3;
  client_pipe = names.personal_pipe;
  box_name = names.box_name;
}
served_request remove names old = record {
  code = pos 5;
  client_pipe = names.personal_pipe;
  box_name = names.box_name;
}
served_request list names old = record old { code = pos 7; client_pipe = names.personal_pipe }

abbrev pub publisher_request : Names → Request
publisher_request names = record {
  code = pos 1;
  client_pipe = names.personal_pipe;
  box_name = names.box_name;
}

dispatch-handler :
    (c : Command) (world : World) (names : Names) (old : Request)
    → dispatch (served_request c names old).code world (served_request c names old)
      ≡ handler c world (served_request c names old)
unfolding dispatch
dispatch-handler create world names old = refl
dispatch-handler remove world names old = refl
dispatch-handler list world names old = refl

-- A request that is read whole is served.
serve_request-eq :
    (world : World) (old request : Request) (buffer text : List ℕ) (s : Broker)
    → c_string buffer ≡ some text
    → scan_request old text ≡ done request
    → request.client_pipe ≢ []
    → serve_request world old buffer s
      ≡ continue (dispatch request.code world request s) (λ u. pure request)
unfolding serve_request
serve_request-eq world old request buffer text s e r named =
    continue-eq (string_in buffer s) _ text s (rw (e, string_in) refl)
    ∙ continue-eq _ _ request s (value-eq (scan_request old text) request s r)
    ∙ rw (not_empty request.client_pipe named, serve_request) refl
  where
    not_empty : (p : List ℕ) → p ≢ [] → (length p == 0) ≡ false
    not_empty [] n = absurd (n refl)
    not_empty (c ∷ p) n = ground arith

received :
    (c : Command) (names : Names) (old : Request) (text : List ℕ)
    → IsNamed names
    → names.box_name ≢ []
    → length names.box_name < box_name_size
    → Received old
        (command_code c)
        names.personal_pipe
        (command_box c names.box_name)
        (scan_request old text)
    → scan_request old text ≡ done (served_request c names old)
received create names old text n ne fits (whole w l e) = e
received create names old text n ne fits (no_box z e) = absurd (ne z)
received create names old text n ne fits (overflow w l e) = absurd (omega (arith, l, fits))
received remove names old text n ne fits (whole w l e) = e
received remove names old text n ne fits (no_box z e) = absurd (ne z)
received remove names old text n ne fits (overflow w l e) = absurd (omega (arith, l, fits))
received list names old text n ne fits (whole w l e) = absurd (w.nonempty refl)
received list names old text n ne fits (no_box z e) = e
received list names old text n ne fits (overflow w l e) = absurd (w.nonempty refl)

command_request :
    (c : Command) (names : Names)
    → IsNamed names
    → length names.personal_pipe < pipe_name_size
    → length names.box_name < box_name_size
    → IsRequest (command_code c) names.personal_pipe (command_box c names.box_name)
command_request c names n p b = record {
  is_int = code_fits c;
  pipe_string = n.pipe_string;
  pipe_word = n.pipe_word;
  pipe_fits = p;
  box_string = box_string c;
  box_fits = box_length c;
}
  where
    code_fits : (c : Command) → IsInt (command_code c)
    code_fits create = omega arith
    code_fits remove = omega arith
    code_fits list = omega arith

    box_string : (c : Command) → IsCString (command_box c names.box_name)
    box_string create = n.box_string
    box_string remove = n.box_string
    box_string list = tt

    box_length : (c : Command) → length (command_box c names.box_name) ≤ box_name_size
    box_length create = omega (arith, b)
    box_length remove = omega (arith, b)
    box_length list = omega arith

command_box-IsSolid :
    (c : Command) (names : Names) → IsNamed names → IsSolid (command_box c names.box_name)
command_box-IsSolid create names n = n.box_solid
command_box-IsSolid remove names n = n.box_solid
command_box-IsSolid list names n = tt

manager_request-eq :
    (c : Command) (names : Names)
    → manager_request (names, c)
      ≡ serialize (command_code c) names.personal_pipe (command_box c names.box_name)
unfolding manager_request
manager_request-eq create names = refl
manager_request-eq remove names = refl
manager_request-eq list names = refl

-- Let the names of a manager's pipe and box be words that fit the arrays of the broker, the box's
-- with its slash. Then the request of a command has a text, and where the broker's buffer starts
-- with the bytes that `send_request` writes for it, whatever stands behind the text and in the rest
-- of the buffer, a round of `func_main` runs the handler of that command: `create_box`,
-- `remove_box` or `list_box`, with the manager's pipe and box. For a `list` the box is the one of
-- the request before. The round then keeps this request.
pub serve_request-handler :
    (world : World) (c : Command) (names : Names)
    → IsNamed names
    → names.box_name ≢ []
    → length names.personal_pipe < pipe_name_size
    → length names.box_name < box_name_size
    → (text : List ℕ) × (manager_request (names, c) ≡ done text)
      × ((behind rest : List ℕ) (old : Request) (s : Broker)
          → serve_request world old (request_bytes behind text ++ rest) s
            ≡ continue
                (handler c world (served_request c names old) s)
                (λ u. pure (served_request c names old)))
serve_request-handler world c names n nonempty p b =
    let (text, e, reads, gets) =
      serialize-Received (command_code c) names.personal_pipe (command_box c names.box_name)
        (command_request c names n p b) (command_box-IsSolid c names n) in
    (
      text,
      manager_request-eq c names ∙ e,
      λ behind rest old s.
          serve_request-eq world old (served_request c names old)
            (request_bytes behind text ++ rest) text s (reads behind rest)
            (received c names old text n nonempty b (gets old)) (pipe_given c old)
          ∙ ap (λ f. continue (f s) (λ u. pure (served_request c names old)))
              (dispatch-handler c world names old),
    )
  where
    pipe_given : (c : Command) (old : Request) → (served_request c names old).client_pipe ≢ []
    pipe_given create old = n.pipe_word.nonempty
    pipe_given remove old = n.pipe_word.nonempty
    pipe_given list old = n.pipe_word.nonempty

-- The request of a publisher, in the same way.
pub serve_request-publisher :
    (world : World) (names : Names)
    → IsNamed names
    → names.box_name ≢ []
    → length names.personal_pipe < pipe_name_size
    → length names.box_name < box_name_size
    → (text : List ℕ) × (serialize register_publisher names.personal_pipe names.box_name
        ≡ done text)
      × ((behind rest : List ℕ) (old : Request) (s : Broker)
          → serve_request world old (request_bytes behind text ++ rest) s
            ≡ continue
                (reg_publisher world (publisher_request names) s)
                (λ u. pure (publisher_request names)))
unfolding dispatch
serve_request-publisher world names n nonempty p b =
    let (text, e, reads, gets) =
      serialize-Received register_publisher names.personal_pipe names.box_name
        (record {
          is_int = omega arith;
          pipe_string = n.pipe_string;
          pipe_word = n.pipe_word;
          pipe_fits = p;
          box_string = n.box_string;
          box_fits = omega (arith, b);
        })
        n.box_solid in
    (
      text,
      e,
      λ behind rest old s.
          serve_request-eq world old (publisher_request names) (request_bytes behind text ++ rest)
            text s (reads behind rest) (read_whole old text (gets old)) n.pipe_word.nonempty,
    )
  where
    read_whole :
        (old : Request) (text : List ℕ)
        → Received old register_publisher names.personal_pipe names.box_name (scan_request old text)
        → scan_request old text ≡ done (publisher_request names)
    read_whole old text (whole w l e) = e
    read_whole old text (no_box z e) = absurd (nonempty z)
    read_whole old text (overflow w l e) = absurd (omega (arith, l, b))
