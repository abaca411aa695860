-- ===== src/Broker/Sessions/Publisher.antt =====
-- A message of publisher/pub.c on its way to the file, in `reg_publisher` of mbroker/mbroker.c.
use t_cnico_file_system_pt.Prelude.{
  ℕ, ◌+◌, ◌-◌, ◌≤◌, ◌<◌, ◌≡◌, refl, ap, ◌∙◌, arith, ℤ, pos, minus_one, List, [], ◌∷◌, ◌++◌, Bool,
  true, false, not, min, length, length-append, leb, ◌==◌,
}
use mathlib.Core.Path.{subst}
use t_cnico_file_system_pt.State.Types.{State, done, Inode, OpenFileEntry}
use t_cnico_file_system_pt.State.Dir.Listing.{IsCString}
use t_cnico_file_system_pt.Invariant.Defs.{IsSound}
use t_cnico_file_system_pt.Operations.Transfer.{tfs_write}
use t_cnico_file_system_pt.Operations.Transfer.WriteCall.{tfs_write-WriteEnds}
use t_cnico_file_system_pt.Operations.Transfer.WriteCall.Ends.{
  IsHandle, WriteEnds, nothing, no_space, written,
}
use t_cnico_file_system_pt.Text.{show_int}
use t_cnico_file_system_pt.Text.Words.{
  HasNoNewline, StartsSolid, StartsNewline, c_string-append, IsCString-append, IsCString-show_int,
}
use t_cnico_file_system_pt.Messages.{serialize_message, scan_coded, send_code, message_size}
use t_cnico_file_system_pt.Messages.RoundTrip.{scan_coded-serialize_message}
use t_cnico_file_system_pt.Broker.{Broker, Run, finished}
use t_cnico_file_system_pt.Broker.Post.{continue-eq, value-eq, calls-eq}
use t_cnico_file_system_pt.Broker.Sessions.{publish_message, string_in, is_below_minus_one}

text_of :
    (code : ℤ) (msg text : List ℕ)
    → serialize_message code msg ≡ done text
    → show_int code ++ (b' ' ∷ msg) ≡ text
unfolding serialize_message
text_of code msg text e = ground (arith, e)

pub IsCString-text :
    (code : ℤ) (msg text : List ℕ)
    → serialize_message code msg ≡ done text
    → IsCString msg
    → IsCString text
IsCString-text code msg text e u = subst IsCString (text_of code msg text e) (
    IsCString-append (show_int code) (b' ' ∷ msg) (IsCString-show_int code)
      ((λ e. omega (arith, e)), u))

-- A line that a publisher reads: a text, and the end of the line.
pub record IsLine (line tail : List ℕ) : Type 0 where
  pub string : IsCString (line ++ tail)
  pub one_line : HasNoNewline line
  pub starts : StartsSolid line
  pub ends : StartsNewline tail
  pub fits : length line + 1 < message_size
  pub one_end : length tail ≤ 1

scanned :
    (old_code : ℤ) (old line tail text : List ℕ)
    → IsLine line tail
    → serialize_message send_code (line ++ tail) ≡ done text
    → scan_coded old_code old text ≡ done (record { code = send_code; line = line; count = 2 })
scanned old_code old line tail text l e =
    let (text', e', sc) =
      scan_coded-serialize_message old_code send_code old line tail (omega arith) l.one_line
        l.starts l.ends (omega (arith, l.fits)) l.one_end in
    subst
      (λ t. scan_coded old_code old t ≡ done (record { code = send_code; line = line; count = 2 }))
      (ground (arith, e, e')) sc

-- The line is in the file, or the file could not take all of it.
pub record Published (s : Broker) (h i : ℕ) (e : OpenFileEntry) (v : Inode) (line : List ℕ)
    (o : Run ((Bool × ℤ × List ℕ) × Broker)) : Type 0 where
  pub number : ℤ
  pub fs : State
  pub returns : o ≡ finished ((true, send_code, line ++ (b' ' ∷ [])), record s { fs = fs })
  pub write_ends :
      WriteEnds 0 s.fs h e i v
        (line ++ (b' ' ∷ []))
        (min (length line + 1) (s.fs.block_size - e.of_offset))
        (done (number, fs))

string_in-eq :
    (text rest : List ℕ) (s : Broker)
    → IsCString text
    → string_in (text ++ (0 ∷ rest)) s ≡ finished (text, s)
string_in-eq text rest s u = rw (c_string-append text rest u, string_in) refl

not_empty : (line : List ℕ) → StartsSolid line → (length line == 0) ≡ false
not_empty [] f = absurd f
not_empty (c ∷ line) f = ground arith

pub publish_message-eq :
    (s : Broker) (h : ℕ) (code : ℤ) (message line tail text rest : List ℕ) (b : ℤ) (fs : State)
    → IsLine line tail
    → serialize_message send_code (line ++ tail) ≡ done text
    → tfs_write (pos h) (line ++ (b' ' ∷ [])) (length line + 1) s.fs ≡ done (b, fs)
    → is_below_minus_one b ≡ false
    → publish_message (pos h) code message (text ++ (0 ∷ rest)) s
      ≡ finished ((true, send_code, line ++ (b' ' ∷ [])), record s { fs = fs })
unfolding publish_message
publish_message-eq s h code message line tail text rest b fs l e w more =
    continue-eq _ _ text s
      (string_in-eq text rest s (IsCString-text send_code (line ++ tail) text e l.string))
    ∙ continue-eq _ _ (record { code = send_code; line = line; count = 2 }) s
        (value-eq (scan_coded code message text) _ s (scanned code message line tail text l e))
    ∙ rw (not_empty line l.starts, small, publish_message)
        (continue-eq _ _ b (record s { fs = fs })
          (calls-eq (tfs_write (pos h) (line ++ (b' ' ∷ [])) (length line + 1)) s b fs w))
    ∙ ap (λ m. finished ((not m, send_code, line ++ (b' ' ∷ [])), record s { fs = fs })) more
  where
    small : leb message_size (length line + 1) ≡ false
    small = ground (arith, l.fits)

-- Between two calls of the file system, let a publisher's session have an open handle. Let the
-- buffer hold the message for a line of the publisher: a C string of less than 1023 bytes before
-- the end of the line, that does not start with a space. Then a round of the session, whatever the
-- last message was, takes the line to the file: it is a `tfs_write` of the line and a space at the
-- handle, which ends in one of the ways of a write, with as many bytes as fit the block behind the
-- offset. The round changes nothing else, and the loop goes on, also where the write has failed.
pub publish_message-Published :
    {h i : ℕ} {e : OpenFileEntry} {v : Inode} (s : Broker) (code : ℤ)
    (message line tail text rest : List ℕ)
    → IsSound 0 s.fs
    → s.fs.mutex_locked ≡ false
    → IsHandle 0 s.fs h e i v
    → IsLine line tail
    → serialize_message send_code (line ++ tail) ≡ done text
    → Published s h i e v line (publish_message (pos h) code message (text ++ (0 ∷ rest)) s)
publish_message-Published {h} {i} {e} {v} s code message line tail text rest ok unheld k l t =
    elim ends [
      | nothing z eq ↦ record {
        number = pos 0;
        fs = record s.fs { mutex_locked = false };
        returns = publish_message-eq s h code message line tail text rest _ _ l t eq refl;
        write_ends = nothing z refl;
      }
      | no_space p z all eq ↦ record {
        number = minus_one;
        fs = record s.fs { mutex_locked = false };
        returns = publish_message-eq s h code message line tail text rest _ _ l t eq refl;
        write_ends = no_space p z all refl;
      }
      | written fs p eq w ↦ record {
        number = _;
        fs = fs;
        returns = publish_message-eq s h code message line tail text rest _ _ l t eq refl;
        write_ends = written fs p refl w;
      }
    ]
  where
    ends :
        WriteEnds 0 s.fs h e i v
          (line ++ (b' ' ∷ []))
          (min (length line + 1) (s.fs.block_size - e.of_offset))
          (tfs_write (pos h) (line ++ (b' ' ∷ [])) (length line + 1) s.fs)
    ends =
        tfs_write-WriteEnds ok unheld k (line ++ (b' ' ∷ [])) (length line + 1)
          (omega (arith, length-append line (b' ' ∷ [])))
          (omega (arith, length-append line (b' ' ∷ []), l.fits))
