-- ===== src/Broker/Sessions/Session/Kept.antt =====
-- A publisher's session leaves the broker between two requests, whether or not the file takes the
-- lines: the loop of `reg_publisher` in mbroker/mbroker.c.
use t_cnico_file_system_pt.Prelude.{
  ℕ, ◌+◌, ◌<◌, ◌≡◌, refl, sym, ap, ◌∙◌, arith, ℤ, pos, minus_one, List, [], ◌∷◌, ◌++◌, length,
  length-append, replicate, false, true, some, get_elem?,
}
use t_cnico_file_system_pt.State.Types.{State, Outcome, done, taken, Inode, OpenFileEntry}
use t_cnico_file_system_pt.Invariant.Defs.{IsSound, root_entries}
use t_cnico_file_system_pt.Invariant.Changes.{set_mutex}
use t_cnico_file_system_pt.Operations.Transfer.{tfs_write}
use t_cnico_file_system_pt.Operations.Transfer.WriteCall.{tfs_write-WriteEnds}
use t_cnico_file_system_pt.Operations.Transfer.WriteCall.Ends.{IsHandle, nothing, no_space, written}
use t_cnico_file_system_pt.Messages.{send_code}
use t_cnico_file_system_pt.Broker.{Broker, Run, finished}
use t_cnico_file_system_pt.Broker.Post.{continue-eq}
use t_cnico_file_system_pt.Broker.Sessions.{receive, buffer_size, is_below_minus_one}
use t_cnico_file_system_pt.Broker.Sessions.Session.{
  Line, AreMessages, Received, publish_message-line, receive-nothing,
}

-- What the loop leaves of the file system.
pub record Kept (s : Broker) (h : ℕ) (o : Run (Unit {0} × Broker)) : Type 0 where
  pub fs : State
  pub returns : o ≡ finished (tt, record s { fs = fs })
  pub sound : IsSound 0 fs
  pub unlocked : fs.mutex_locked ≡ false
  pub opened : get_elem? fs.free_open_file_entries h ≡ some taken
  pub states : fs.free_open_file_entries ≡ s.fs.free_open_file_entries
  pub listed : root_entries 0 fs ≡ root_entries 0 s.fs

-- A write through a handle, however it ends.
record Wrote (fs : State) (h i : ℕ) (o : Outcome (ℤ × State)) : Type 0 where
  number : ℤ
  result : State
  returns : o ≡ done (number, result)
  more : is_below_minus_one number ≡ false
  sound : IsSound 0 result
  unlocked : result.mutex_locked ≡ false
  entry : OpenFileEntry
  inode : Inode
  still_open : IsHandle 0 result h entry i inode
  states : result.free_open_file_entries ≡ fs.free_open_file_entries
  listed : root_entries 0 result ≡ root_entries 0 fs

Wrote-nothing :
    (fs : State) (h i : ℕ) (e : OpenFileEntry) (v : Inode) (b : ℤ) (o : Outcome (ℤ × State))
    → IsSound 0 fs
    → IsHandle 0 fs h e i v
    → is_below_minus_one b ≡ false
    → o ≡ done (b, record fs { mutex_locked = false })
    → Wrote fs h i o
Wrote-nothing fs h i e v b o ok k more eq = record {
  number = b;
  result = record fs { mutex_locked = false };
  returns = eq;
  more = more;
  sound = set_mutex false ok;
  unlocked = refl;
  entry = e;
  inode = v;
  still_open = record { opened = k.opened; entry = k.entry; inumber = k.inumber; inode = k.inode };
  states = refl;
  listed = refl;
}

tfs_write-Wrote :
    (fs : State) (h i : ℕ) (e : OpenFileEntry) (v : Inode) (bs : List ℕ) (n : ℕ)
    → IsSound 0 fs
    → fs.mutex_locked ≡ false
    → IsHandle 0 fs h e i v
    → n ≡ length bs
    → length bs < 2000
    → Wrote fs h i (tfs_write (pos h) bs n fs)
tfs_write-Wrote fs h i e v bs n ok unheld k size small =
    elim (tfs_write-WriteEnds ok unheld k bs n (omega (arith, size)) (omega (arith, small))) [
      | nothing z eq ↦ Wrote-nothing fs h i e v (pos 0) _ ok k refl eq
      | no_space p z all eq ↦ Wrote-nothing fs h i e v minus_one _ ok k refl eq
      | written s' p eq z ↦ record {
        number = _;
        result = s';
        returns = eq;
        more = refl;
        sound = z.sound;
        unlocked = z.unlocked;
        entry = _;
        inode = z.inode;
        still_open = record {
          opened = ap (λ t. get_elem? t h) z.states ∙ k.opened;
          entry = z.offset;
          inumber = k.inumber;
          inode = z.at_inumber;
        };
        states = z.states;
        listed = z.listed;
      }
    ]

pub receive-Kept :
    (s : Broker) (h i : ℕ) (e : OpenFileEntry) (v : Inode) (lines : List Line)
    (chunks : List (List ℕ)) (code : ℤ) (message buffer : List ℕ)
    → IsSound 0 s.fs
    → s.fs.mutex_locked ≡ false
    → IsHandle 0 s.fs h e i v
    → AreMessages lines chunks
    → Kept s h (receive (pos h) code message buffer chunks s)
unfolding receive
receive-Kept s h i e v [] chunks code message buffer ok unheld k a = record {
  fs = s.fs;
  returns = receive-nothing (pos h) code message buffer chunks s a;
  sound = ok;
  unlocked = unheld;
  opened = k.opened;
  states = refl;
  listed = refl;
}
receive-Kept s h i e v (l ∷ lines) [] code message buffer ok unheld k a = elim a [ ]
receive-Kept s h i e v (l ∷ lines) ([] ∷ chunks) code message buffer ok unheld k a = elim a [ ]
receive-Kept s h i e v ((line, tail) ∷ lines) ((c ∷ chunk) ∷ chunks) code message buffer ok unheld k
      (m, a) =
    let bs = line ++ (b' ' ∷ []) in
    let size : length bs ≡ length line + 1 = length-append line (b' ' ∷ []) in
    let w =
      tfs_write-Wrote s.fs h i e v bs (length line + 1) ok unheld k (sym size)
        (omega (arith, size, m.is_line.fits)) in
    let r =
      receive-Kept (record s { fs = w.result }) h i w.entry w.inode lines chunks send_code bs
        (replicate buffer_size 0) w.sound w.unlocked w.still_open a in
    record {
      fs = r.fs;
      returns =
          continue-eq _ _ (true, send_code, bs) (record s { fs = w.result })
            (publish_message-line s h code message line tail (c ∷ chunk) buffer w.number w.result m
              w.returns w.more)
          ∙ r.returns;
      sound = r.sound;
      unlocked = r.unlocked;
      opened = r.opened;
      states = r.states ∙ w.states;
      listed = r.listed ∙ w.listed;
    }

abbrev pub kept_of :
    (s : Broker) (h i : ℕ) (e : OpenFileEntry) (bs : List ℕ) (o : Run (Unit {0} × Broker))
    → Received s h e i bs o
    → Kept s h o
kept_of s h i e bs o r = record {
  fs = r.fs;
  returns = r.returns;
  sound = r.sound;
  unlocked = r.unlocked;
  opened = r.still_open.opened;
  states = r.states;
  listed = r.listed;
}
