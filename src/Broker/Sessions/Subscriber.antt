-- ===== src/Broker/Sessions/Subscriber.antt =====
-- A session of `reg_subscriber` of mbroker/mbroker.c does not end.
use t_cnico_file_system_pt.Prelude.{
  ℕ, zero, suc, ◌+◌, ◌-◌, ◌≤◌, ◌≡◌, refl, sym, ap, ◌∙◌, arith, ℤ, pos, negsuc, List, [], false,
  Bool-cases, inl, inr, min, Option, none, some, get_elem?, get_elem?-set_self, get_elem?_bound,
}
use mathlib.Core.Path.{subst}
use t_cnico_file_system_pt.State.Types.{State, Inode, OpenFileEntry}
use t_cnico_file_system_pt.Invariant.Defs.{IsSound}
use t_cnico_file_system_pt.Invariant.Changes.{set_mutex}
use t_cnico_file_system_pt.Operations.Transfer.{tfs_read}
use t_cnico_file_system_pt.Operations.Transfer.WriteCall.Ends.{IsHandle}
use t_cnico_file_system_pt.Operations.Transfer.Read.{at_end, copied, tfs_read-ReadEnds}
use t_cnico_file_system_pt.Messages.{message_size, serialize_message, server_send}
use t_cnico_file_system_pt.Text.{c_string}
use t_cnico_file_system_pt.Clients.Manager.{overwritten}
use t_cnico_file_system_pt.Broker.{Broker, World, finished, undefined, value, calls}
use t_cnico_file_system_pt.Broker.Post.{
  Post, NeverReturns, continue-Post, value-Post, Post-weaken, calls-Post,
}
use t_cnico_file_system_pt.Broker.Sessions.{deliver, string_in, forward, forward_read, same_number}

string_in-Post : (buffer : List ℕ) (s : Broker) → Post (λ t s'. s' ≡ s) (string_in buffer s)
string_in-Post buffer s = string-cases (c_string buffer)
  where
    string-cases :
        (o : Option (List ℕ))
        → Post (λ t s'. s' ≡ s) (elim o [ none ↦ undefined | some t ↦ finished (t, s) ])
    string-cases none = tt
    string-cases (some t) = refl

-- `deliver` sends what it can and leaves the file system alone.
deliver-Post :
    (rounds : ℕ) (world : World) (fd b : ℤ) (buffer : List ℕ) (s : Broker)
    → Post (λ r s'. s'.fs ≡ s.fs) (deliver rounds world fd b buffer s)
unfolding deliver
deliver-Post rounds world fd (negsuc n) buffer s = refl
deliver-Post rounds world fd (pos zero) buffer s = refl
deliver-Post zero world fd (pos (suc b)) buffer s = tt
deliver-Post (suc rounds) world fd (pos (suc b)) buffer s =
    continue-Post (λ t s'. s' ≡ s) (λ r s'. s'.fs ≡ s.fs) (string_in buffer s) _
      (string_in-Post buffer s)
      λ text t u.
        continue-Post (λ m s'. s' ≡ t) (λ r s'. s'.fs ≡ s.fs)
          (value (serialize_message server_send text) t) _
          (value-Post (serialize_message server_send text) t)
          λ msg t' u'. elim (Bool-cases (world.accepts fd msg)) [
            | inl y ↦ rw y (
                Post-weaken (λ r s'. s'.fs ≡ t'.fs) (λ r s'. s'.fs ≡ s.fs) _
                  (deliver-Post rounds world fd _ _ _)
                  (λ r s' e. e ∙ ap Broker.fs u' ∙ ap Broker.fs u))
            | inr n ↦ rw n (ap Broker.fs u' ∙ ap Broker.fs u)
          ]

-- An open handle on a file, at an offset that is not past its end.
pub record Standing (h i : ℕ) (v : Inode) (fs : State) : Type 0 where
  pub entry : OpenFileEntry
  pub sound : IsSound 0 fs
  pub unlocked : fs.mutex_locked ≡ false
  pub handle : IsHandle 0 fs h entry i v
  pub within : entry.of_offset ≤ v.i_size

abbrev ReadMore : ℕ → ℕ → Inode → ℤ × List ℕ → Broker → Type 0
ReadMore h i v r s = (n : ℕ) × (bytes : List ℕ) × (r ≡ (pos n, bytes)) × Standing h i v s.fs

-- A `tfs_read` returns a number that is not negative, and the handle stands as before.
tfs_read-Standing :
    {h i : ℕ} {v : Inode} (s : Broker)
    → Standing h i v s.fs
    → Post (ReadMore h i v) (calls (tfs_read (pos h) message_size) s)
tfs_read-Standing {h} {i} {v} s st =
    elim (tfs_read-ReadEnds st.sound st.unlocked st.handle st.within message_size) [
      | at_end z eq ↦ calls-Post (ReadMore h i v) (tfs_read (pos h) message_size) s _ _ eq (
        0,
        [],
        refl,
        record {
          entry = st.entry;
          sound = set_mutex false st.sound;
          unlocked = refl;
          handle = same_handle (record s.fs { mutex_locked = false }) refl refl refl;
          within = st.within;
        },
      )
      | copied b p eb eq sound ↦
          calls-Post (ReadMore h i v) (tfs_read (pos h) message_size) s _ _ eq (
            min message_size (v.i_size - st.entry.of_offset),
            _,
            refl,
            record {
              entry = record st.entry {
                of_offset = st.entry.of_offset + min message_size (v.i_size - st.entry.of_offset);
              };
              sound = sound;
              unlocked = refl;
              handle = record {
                opened = st.handle.opened;
                entry =
                    get_elem?-set_self s.fs.open_file_table h _
                      (get_elem?_bound s.fs.open_file_table h st.entry st.handle.entry);
                inumber = st.handle.inumber;
                inode = st.handle.inode;
              };
              within = omega (arith, st.within);
            },
          )
    ]
  where
    same_handle :
        (fs : State)
        → fs.free_open_file_entries ≡ s.fs.free_open_file_entries
        → fs.open_file_table ≡ s.fs.open_file_table
        → fs.inode_table ≡ s.fs.inode_table
        → IsHandle 0 fs h st.entry i v
    same_handle fs a b c = record {
      opened = ap (λ t. get_elem? t h) a ∙ st.handle.opened;
      entry = ap (λ t. get_elem? t h) b ∙ st.handle.entry;
      inumber = st.handle.inumber;
      inode = ap (λ t. get_elem? t i) c ∙ st.handle.inode;
    }

-- The loop that forwards what the file gets never returns.
pub forward-NeverReturns :
    (rounds : ℕ) (world : World) (fd : ℤ) (buffer : List ℕ) (prev : ℤ) {h i : ℕ} {v : Inode}
    (s : Broker)
    → Standing h i v s.fs
    → NeverReturns (forward rounds world fd (pos h) buffer prev s)
unfolding forward forward_read
forward-NeverReturns zero world fd buffer prev s st = tt
forward-NeverReturns (suc rounds) world fd buffer prev {h} {i} {v} s st =
    continue-Post _ _ (calls (tfs_read (pos h) message_size) s) _ (tfs_read-Standing s st)
      λ r s' read.
        let (n, bytes, e, st') = read in
        subst
          (λ r.
            NeverReturns (forward_read (forward rounds world fd (pos h)) world fd buffer prev r s'))
          (sym e)
          (elim (Bool-cases (same_number (pos n) prev)) [
            | inl y ↦ rw y (forward-NeverReturns rounds world fd _ prev s' st')
            | inr no_prev ↦ rw no_prev (
                continue-Post (λ r t. t.fs ≡ s'.fs) _ _ _
                  (deliver-Post n world fd (pos n) (overwritten bytes buffer) s')
                  λ r t kept.
                    forward-NeverReturns rounds world fd _ _ t
                      (subst (Standing h i v) (sym kept) st'))
          ])
