-- ===== src/Operations/Transfer/RoundTrip.antt =====
-- What `tfs_write` wrote is what `tfs_read` reads.
use t_cnico_file_system_pt.Prelude.{
  ℕ, ◌+◌, ◌-◌, ◌*◌, ◌≤◌, ◌<◌, ◌≡◌, ◌≢◌, refl, sym, ap, ◌∙◌, arith, ℤ, pos, ssize_half, List,
  get_elem?, length, take, min, length-take, false,
}
use mathlib.Core.Path.{subst}
use t_cnico_file_system_pt.State.Types.{State, Outcome, done, Inode, OpenFileEntry}
use t_cnico_file_system_pt.State.Bytes.{Memory, peek}
use t_cnico_file_system_pt.Invariant.Defs.{IsSound}
use t_cnico_file_system_pt.Operations.Transfer.{tfs_write, tfs_read}
use t_cnico_file_system_pt.Operations.Transfer.WriteCall.{tfs_write-WriteEnds}
use t_cnico_file_system_pt.Operations.Transfer.WriteCall.Ends.{
  IsHandle, Written, WriteEnds, nothing, no_space, written,
}
use t_cnico_file_system_pt.Operations.Transfer.Read.{
  ReadEnds, moved_on, at_end, copied, tfs_read-ReadEnds,
}

abbrev pub ReturnsBytes : ℕ → List ℕ → Outcome ((ℤ × List ℕ) × State) → Type 0
ReturnsBytes n bs o = (s : State) × (o ≡ done ((pos n, bs), s))

peek_at :
    (m : Memory) {b c w x o p n l : ℕ}
    → b ≡ c
    → w ≡ x
    → o ≡ p
    → n ≡ l
    → peek m (b * w + o) n ≡ peek m (c * x + p) l
peek_at m e f g k = cc

min-eq : (n k : ℕ) → n ≤ k → min n k ≡ n
min-eq n k h = omega arith

module _ {rb : ℕ} {s : State} {h h' i : ℕ} {e e' : OpenFileEntry} {v : Inode} (ne : h ≢ h')
    (k' : IsHandle rb s h' e' i v) (same : e'.of_offset ≡ e.of_offset) (bs : List ℕ) where
  read_copied :
      (s' : State) (n : ℕ) (o : Outcome ((ℤ × List ℕ) × State))
      → (z : Written rb s h e i v bs s') → length bs ≡ n
      → ReadEnds rb s' h' e' z.inode n o
      → 0 < n
      → ReturnsBytes n bs o
  read_copied s' n o z l (at_end none_left eq) p = absurd (omega arith)
  read_copied s' n o z l (copied b p' eb eq sound) p =
      (moved_on s' h' e' n, eq ∙ ap (λ c. done ((pos n, c), moved_on s' h' e' n)) bytes)
    where
      bytes : peek s'.fs_data (b * s'.block_size + e'.of_offset) n ≡ bs
      bytes =
          peek_at s'.fs_data (ground arith) (ap (λ p. p.block_size) z.params) same (sym l) ∙ z.bytes

  read-Written :
      (s' : State)
      → Written rb s h e i v bs s'
      → 0 < length bs
      → ReturnsBytes (length bs) bs (tfs_read (pos h') (length bs) s')
  read-Written s' z p =
      read_copied s' (length bs) (tfs_read (pos h') (length bs) s') z refl
        (subst (λ n. ReadEnds rb s' h' e' z.inode n (tfs_read (pos h') (length bs) s'))
          (min-eq (length bs) (z.inode.i_size - e'.of_offset) enough)
          (tfs_read-ReadEnds z.sound z.unlocked still (omega (arith, reached)) (length bs)))
        p
    where
      reached : e'.of_offset + length bs ≤ z.inode.i_size
      reached = ground (arith, z.size, same)

      enough : length bs ≤ z.inode.i_size - e'.of_offset
      enough = omega (arith, reached)

      still : IsHandle rb s' h' e' i z.inode
      still = record {
        opened = ap (λ t. get_elem? t h') z.states ∙ k'.opened;
        entry = z.other_files h' ne ∙ k'.entry;
        inumber = k'.inumber;
        inode = z.at_inumber;
      }

Written-by :
    {rb : ℕ} {s : State} {h i : ℕ} {e : OpenFileEntry} {v : Inode} (buffer : List ℕ) (n : ℕ)
    (s' : State) (o : Outcome (ℤ × State))
    → WriteEnds rb s h e i v buffer n o
    → o ≡ done (pos n, s')
    → 0 < n
    → Written rb s h e i v (take n buffer) s'
Written-by buffer n s' o (nothing z eq) q p = absurd (omega arith)
Written-by buffer n s' o (no_space p z all eq) q _ = absurd (ground arith)
Written-by {rb} {s} {h} {i} {e} {v} buffer n s' o (written t p eq z) q _ =
    subst (Written rb s h e i v (take n buffer)) (ground arith) z

-- Between operations, let two open handles stand at the same offset of one file. If a `tfs_write`
-- through the first of a positive number of bytes that fit the block returns that number, then a
-- `tfs_read` of as many bytes through the second returns exactly the bytes written.
pub tfs_read-tfs_write :
    {rb : ℕ} {s : State} {h h' i : ℕ} {e e' : OpenFileEntry} {v : Inode}
    → IsSound rb s
    → s.mutex_locked ≡ false
    → IsHandle rb s h e i v
    → IsHandle rb s h' e' i v
    → h ≢ h'
    → e'.of_offset ≡ e.of_offset
    → (buffer : List ℕ) (n : ℕ) (s' : State) → 0 < n
    → n ≤ length buffer
    → length buffer < ssize_half
    → e.of_offset + n ≤ s.block_size
    → tfs_write (pos h) buffer n s ≡ done (pos n, s')
    → ReturnsBytes n (take n buffer) (tfs_read (pos h') n s')
tfs_read-tfs_write {rb} {s} {h} {h'} {i} {e} {e'} {v} ok unheld k k' ne same buffer n s' p l small
      fits wrote =
    subst (λ m. ReturnsBytes m (take n buffer) (tfs_read (pos h') m s')) all
      (read-Written ne k' same (take n buffer) s' z (omega (arith, all)))
  where
    all : length (take n buffer) ≡ n
    all = omega (arith, length-take n buffer)

    z : Written rb s h e i v (take n buffer) s'
    z =
        Written-by buffer n s' (tfs_write (pos h) buffer n s)
          (subst (λ m. WriteEnds rb s h e i v buffer m (tfs_write (pos h) buffer n s))
            (min-eq n (s.block_size - e.of_offset) (omega arith))
            (tfs_write-WriteEnds ok unheld k buffer n l small))
          wrote p
