-- ===== src/Messages.antt =====
-- The messages of utils/logging.c: the serializers, and the calls of `sscanf` that read them in
-- mbroker/mbroker.c, subscriber/sub.c and manager/manager.c. The calls of `malloc` for a message
-- succeed.
pub mod RoundTrip
use t_cnico_file_system_pt.Prelude.{
  ℕ, ℤ, pos, List, [], ◌∷◌, ◌++◌, Bool, true, ltb, if◌then◌else◌, length, take, Option, none, some,
}
use t_cnico_file_system_pt.State.Types.{Outcome, done, panic, fault, deadlock}
use t_cnico_file_system_pt.Text.{
  show_int, show_nat, show_long, scan_int, fits_int, scan_word, scan_line, scan_long,
}

-- The sizes of the arrays for the names of pipes and boxes and for a message.
abbrev pub pipe_name_size : ℕ
pipe_name_size = 256

abbrev pub box_name_size : ℕ
box_name_size = 32

abbrev pub message_size : ℕ
message_size = 1024

abbrev pub register_publisher : ℤ
register_publisher = pos 1

abbrev pub register_subscriber : ℤ
register_subscriber = pos 2

abbrev pub create_box_code : ℤ
create_box_code = pos 3

abbrev pub answer_create_box : ℤ
answer_create_box = pos 4

abbrev pub remove_box_code : ℤ
remove_box_code = pos 5

abbrev pub list_box_code : ℤ
list_box_code = pos 7

abbrev pub list_answer : ℤ
list_answer = pos 8

abbrev pub send_code : ℤ
send_code = pos 9

abbrev pub server_send : ℤ
server_send = pos 10

-- `sprintf` into an array of `size` bytes, undefined where the text and its NUL do not fit.
abbrev pub printed : ℕ → List ℕ → Outcome (List ℕ)
printed size text = if ltb (length text) size then done text else fault

unfoldable pub serialize : ℤ → List ℕ → List ℕ → Outcome (List ℕ)
serialize code client_pipe box_name =
    printed 400 (show_int code ++ (b' ' ∷ (client_pipe ++ (b' ' ∷ box_name))))

unfoldable pub serialize_answer : ℤ → ℤ → List ℕ → Outcome (List ℕ)
serialize_answer code rcode error_message =
    printed 1300 (show_int code ++ (b' ' ∷ (show_int rcode ++ (b' ' ∷ error_message))))

unfoldable pub serialize_message : ℤ → List ℕ → Outcome (List ℕ)
serialize_message code msg = printed 1074 (show_int code ++ (b' ' ∷ msg))

unfoldable pub serialize_listing : ℤ → ℕ → List ℕ → ℕ → ℕ → ℕ → Outcome (List ℕ)
serialize_listing code last box_name size pub_count sub_count = printed 1300 (
    show_int code
    ++ (b' '
        ∷ (show_nat last
            ++ (b' '
                ∷ (box_name
                    ++ (b' '
                        ∷ (show_long size
                            ++ (b' ' ∷ (show_long pub_count ++ (b' ' ∷ show_long sub_count))))))))))

-- The 400 bytes that `send_request` writes: the message, its NUL, and what stands behind it.
unfoldable pub request_bytes : List ℕ → List ℕ → List ℕ
request_bytes behind r1 = take 400 (r1 ++ (0 ∷ behind))

infixl 5 ◌>>=◌
abbrev pub ◌>>=◌ {ℓ κ} : {A : Type ℓ} {B : Type κ} → Outcome A → (A → Outcome B) → Outcome B
done a >>= f = f a
panic >>= f = panic
fault >>= f = fault
deadlock >>= f = deadlock

-- One conversion of a `sscanf`: the variables, and the text that is left as long as all of the
-- conversions so far have matched. A value that its variable cannot hold is undefined.
abbrev pub convert :
    {A S : Type 0}
    → (List ℕ → Option (A × List ℕ))
    → (A → Bool)
    → (A → S → S)
    → S × Option (List ℕ)
    → Outcome (S × Option (List ℕ))
convert read valid store (vars, none) = done (vars, none)
convert read valid store (vars, some text) = elim (read text) [
  | none ↦ done (vars, none)
  | some r ↦ if valid r.0 then done (store r.0 vars, some r.1) else fault
]

-- A string and its NUL fit an array.
abbrev pub fits_array : ℕ → List ℕ → Bool
fits_array size s = ltb (length s) size

-- `code` and `clientInput` of `func_main`.
pub record Request : Type 0 where
  pub code : ℤ
  pub client_pipe : List ℕ
  pub box_name : List ℕ

-- `sscanf(buffer, "%d %s %s", …)`
unfoldable pub scan_request : Request → List ℕ → Outcome Request
scan_request old buffer =
    convert scan_int fits_int (λ c r. record r { code = c }) (old, some buffer)
    >>= convert scan_word (fits_array pipe_name_size) (λ p r. record r { client_pipe = p })
    >>= convert scan_word (fits_array box_name_size) (λ b r. record r { box_name = b })
    >>= λ r. done r.0

-- The variables of `sscanf(buffer, "%d %[^\n]%*c", …)`, and how many it has set.
pub record Coded : Type 0 where
  pub code : ℤ
  pub line : List ℕ
  pub count : ℕ

unfoldable pub scan_coded : ℤ → List ℕ → List ℕ → Outcome Coded
scan_coded code line buffer =
    convert scan_int fits_int (λ c r. record r { code = c; count = 1 })
      (record { code = code; line = line; count = 0 }, some buffer)
    >>= convert scan_line (fits_array message_size) (λ l r. record r { line = l; count = 2 })
    >>= λ r. done r.0

-- The variables of the manager for an answer, with the size of the array of its text.
pub record Answer : Type 0 where
  pub return_code : ℤ
  pub error_msg : List ℕ

-- `sscanf(input, "%d %s", …)`
unfoldable pub scan_answer : Answer → List ℕ → Outcome Answer
scan_answer old input =
    convert scan_int fits_int (λ c r. record r { return_code = c }) (old, some input)
    >>= convert scan_word (fits_array message_size) (λ m r. record r { error_msg = m })
    >>= λ r. done r.0

-- The variables of the manager for a line of a listing.
pub record Listed : Type 0 where
  pub last : ℤ
  pub name : List ℕ
  pub size : ℕ
  pub publishers : ℕ
  pub subscribers : ℕ

-- `sscanf(buffer, "%d %s %lu %lu %lu", …)`
unfoldable pub scan_listed : Listed → List ℕ → Outcome Listed
scan_listed old buffer =
    convert scan_int fits_int (λ c r. record r { last = c }) (old, some buffer)
    >>= convert scan_word (fits_array box_name_size) (λ n r. record r { name = n })
    >>= convert scan_long (λ n. true) (λ n r. record r { size = n })
    >>= convert scan_long (λ n. true) (λ n r. record r { publishers = n })
    >>= convert scan_long (λ n. true) (λ n r. record r { subscribers = n })
    >>= λ r. done r.0
