-- ===== src/Broker/Sessions/Session.antt =====
-- The session of a publisher, in `reg_publisher` of mbroker/mbroker.c.
pub mod Whole
pub mod Kept
pub mod Registered
use t_cnico_file_system_pt.Prelude.{
  ℕ, ◌+◌, ◌≡◌, ◌⊎◌, refl, sym, ap, ◌∙◌, arith, inl, inr, ℤ, pos, List, [], ◌∷◌, ◌++◌, length, true,
  drop, false, some,
}
use mathlib.Core.List.{append_assoc}
use t_cnico_file_system_pt.State.Types.{State, done, Inode, OpenFileEntry}
use t_cnico_file_system_pt.Invariant.Defs.{IsSound, root_entries}
use t_cnico_file_system_pt.Operations.Transfer.{tfs_write}
use t_cnico_file_system_pt.Operations.Transfer.Append.{IsText, Appended}
use t_cnico_file_system_pt.Operations.Transfer.WriteCall.Ends.{IsHandle}
use t_cnico_file_system_pt.Text.{c_string, scan_int, skip_space}
use t_cnico_file_system_pt.Text.Words.{c_string-append}
use t_cnico_file_system_pt.Messages.{serialize_message, send_code, scan_coded, message_size}
use t_cnico_file_system_pt.Clients.Manager.{overwritten}
use t_cnico_file_system_pt.Broker.{Broker, Run, finished, value}
use t_cnico_file_system_pt.Broker.Post.{continue-eq}
use t_cnico_file_system_pt.Broker.Sessions.{publish_message, receive, string_in, is_below_minus_one}
use t_cnico_file_system_pt.Broker.Sessions.Publisher.{IsLine, publish_message-eq, IsCString-text}

-- A line, and its end.
abbrev pub Line : Type 0
Line = List ℕ × List ℕ

-- What the lines come to in the file.
abbrev pub joined : List Line → List ℕ
joined [] = []
joined ((line, tail) ∷ lines) = (line ++ (b' ' ∷ [])) ++ joined lines

-- The bytes that a read returns for a line: its message with the NUL, and what stood behind it, or
-- the space with which a publisher starts before that.
pub record IsMessage (line tail bytes : List ℕ) : Type 0 where
  pub is_line : IsLine line tail
  pub text : List ℕ
  pub behind : List ℕ
  pub serialized : serialize_message send_code (line ++ tail) ≡ done text
  pub shape : (bytes ≡ text ++ (0 ∷ behind)) ⊎ (bytes ≡ b' ' ∷ (text ++ (0 ∷ behind)))

-- Each read returns the message of one line, and then nothing.
abbrev pub AreMessages : List Line → List (List ℕ) → Type 0
AreMessages [] [] = Unit
AreMessages [] ([] ∷ chunks) = Unit
AreMessages [] ((c ∷ chunk) ∷ chunks) = ⊥
AreMessages (l ∷ lines) [] = ⊥
AreMessages (l ∷ lines) ([] ∷ chunks) = ⊥
AreMessages ((line, tail) ∷ lines) ((c ∷ chunk) ∷ chunks) =
    IsMessage line tail (c ∷ chunk) × AreMessages lines chunks

scan_coded-space :
    (code : ℤ) (old text : List ℕ) → scan_coded code old (b' ' ∷ text) ≡ scan_coded code old text
unfolding scan_coded scan_int skip_space
scan_coded-space code old text = refl

string_in-eq :
    (buffer text : List ℕ) (s : Broker)
    → c_string buffer ≡ some text
    → string_in buffer s ≡ finished (text, s)
string_in-eq buffer text s e = rw (e, string_in) refl

c_string-space :
    (buffer text : List ℕ)
    → c_string buffer ≡ some text
    → c_string (b' ' ∷ buffer) ≡ some (b' ' ∷ text)
unfolding c_string
c_string-space buffer text e = ground (arith, e)

-- A space before the message changes nothing.
publish_message-space :
    (fh code : ℤ) (message buffer text : List ℕ) (s : Broker)
    → c_string buffer ≡ some text
    → publish_message fh code message (b' ' ∷ buffer) s ≡ publish_message fh code message buffer s
unfolding publish_message
publish_message-space fh code message buffer text s e =
    continue-eq _ _ (b' ' ∷ text) s
      (string_in-eq (b' ' ∷ buffer) (b' ' ∷ text) s (c_string-space buffer text e))
    ∙ rw (scan_coded-space code message text) refl
    ∙ sym (continue-eq _ _ text s (string_in-eq buffer text s e))

-- The message of a line in the buffer.
pub publish_message-line :
    (s : Broker) (h : ℕ) (code : ℤ) (message line tail bytes buffer : List ℕ) (n : ℤ) (fs : State)
    → IsMessage line tail bytes
    → tfs_write (pos h) (line ++ (b' ' ∷ [])) (length line + 1) s.fs ≡ done (n, fs)
    → is_below_minus_one n ≡ false
    → publish_message (pos h) code message (overwritten bytes buffer) s
      ≡ finished ((true, send_code, line ++ (b' ' ∷ [])), record s { fs = fs })
publish_message-line s h code message line tail bytes buffer n fs m w more = elim m.shape [
  | inl e ↦
      ap (λ b. publish_message (pos h) code message (b ++ drop (length bytes) buffer) s) e
      ∙ ap (λ b. publish_message (pos h) code message b s)
          (append_assoc m.text (0 ∷ m.behind) (drop (length bytes) buffer))
      ∙ plain
  | inr e ↦
      ap (λ b. publish_message (pos h) code message (b ++ drop (length bytes) buffer) s) e
      ∙ ap (λ b. publish_message (pos h) code message (b' ' ∷ b) s)
          (append_assoc m.text (0 ∷ m.behind) (drop (length bytes) buffer))
      ∙ publish_message-space (pos h) code message _ m.text s (
          c_string-append m.text (m.behind ++ drop (length bytes) buffer)
            (IsCString-text send_code (line ++ tail) m.text m.serialized m.is_line.string))
      ∙ plain
]
  where
    plain :
        publish_message
          (pos h)
          code
          message
          (m.text ++ (0 ∷ (m.behind ++ drop (length bytes) buffer)))
          s
        ≡ finished ((true, send_code, line ++ (b' ' ∷ [])), record s { fs = fs })
    plain =
        publish_message-eq s h code message line tail m.text
          (m.behind ++ drop (length bytes) buffer) n fs m.is_line m.serialized w more

-- What the loop leaves of the file behind the handle.
pub record Received (s : Broker) (h : ℕ) (e : OpenFileEntry) (i : ℕ) (bs : List ℕ)
    (o : Run (Unit {0} × Broker)) : Type 0 where
  pub fs : State
  pub returns : o ≡ finished (tt, record s { fs = fs })
  pub sound : IsSound 0 fs
  pub unlocked : fs.mutex_locked ≡ false
  pub inode : Inode
  pub still_open : IsHandle 0 fs h (record e { of_offset = length bs }) i inode
  pub text : IsText fs inode bs
  pub states : fs.free_open_file_entries ≡ s.fs.free_open_file_entries
  pub listed : root_entries 0 fs ≡ root_entries 0 s.fs

pub receive-nothing :
    (fh code : ℤ) (message buffer : List ℕ) (chunks : List (List ℕ)) (s : Broker)
    → AreMessages [] chunks
    → receive fh code message buffer chunks s ≡ finished (tt, s)
unfolding receive
receive-nothing fh code message buffer [] s a = refl
receive-nothing fh code message buffer ([] ∷ chunks) s a = refl
receive-nothing fh code message buffer ((c ∷ chunk) ∷ chunks) s a = elim a [ ]
