-- ===== src/Operations/Transfer/Append.antt =====
-- A `tfs_write` of fs/operations.c at the end of a file, against the bytes of the file.
use t_cnico_file_system_pt.Prelude.{
  ℕ, zero, suc, ◌+◌, ◌-◌, ◌*◌, ◌≤◌, ◌<◌, ◌≡◌, ◌⊎◌, refl, sym, ap, ◌∙◌, arith, inl, inr, ℤ, pos,
  ssize_half, List, [], ◌∷◌, ◌++◌, get_elem?, length, length-append, take, min, false, some,
}
use mathlib.Core.Path.{subst, ap₂}
use t_cnico_file_system_pt.State.Types.{State, Outcome, done, Inode, OpenFileEntry}
use t_cnico_file_system_pt.State.Bytes.{Memory, peek}
use t_cnico_file_system_pt.State.Tables.FirstFree.{AllTaken}
use t_cnico_file_system_pt.Invariant.Defs.{IsSound, root_entries}
use t_cnico_file_system_pt.Operations.Transfer.{tfs_write}
use t_cnico_file_system_pt.Operations.Transfer.WriteCall.{tfs_write-WriteEnds}
use t_cnico_file_system_pt.Operations.Transfer.WriteCall.Ends.{
  IsHandle, Written, WriteEnds, nothing, no_space, written,
}

-- A file holds these bytes.
pub record IsText (s : State) (v : Inode) (bs : List ℕ) : Type 0 where
  pub size : v.i_size ≡ length bs
  pub in_block :
      0 < length bs
      → (b : ℕ) × (v.i_data_block ≡ pos b) × (peek s.fs_data (b * s.block_size) (length bs) ≡ bs)

-- What is left of a write of `bs` behind the bytes `old` of a file.
pub record Appended (rb : ℕ) (s : State) (h : ℕ) (e : OpenFileEntry) (i : ℕ) (old bs : List ℕ)
    (o : Outcome (ℤ × State)) : Type 0 where
  pub result : State
  pub returns : o ≡ done (pos (length bs), result)
  pub sound : IsSound rb result
  pub unlocked : result.mutex_locked ≡ false
  pub inode : Inode
  pub still_open : IsHandle rb result h (record e { of_offset = length (old ++ bs) }) i inode
  pub text : IsText result inode (old ++ bs)
  pub states : result.free_open_file_entries ≡ s.free_open_file_entries
  pub params : result.params ≡ s.params
  pub listed : root_entries rb result ≡ root_entries rb s

peek-append : (m : Memory) (off k n : ℕ) → peek m off (k + n) ≡ peek m off k ++ peek m (off + k) n
unfolding peek
peek-append m off zero n = ap₂ (peek m) (omega arith) (omega arith)
peek-append m off (suc k) n =
    let e : suc k + n ≡ suc (k + n) = omega arith in
    ap (peek m off) e
    ∙ ap (λ bs. m off ∷ bs)
        (peek-append m (off + 1) k n ∙ ap (λ o. peek m (off + 1) k ++ peek m o n) (omega arith))

take-length : (bs : List ℕ) → take (length bs) bs ≡ bs
take-length [] = refl
take-length (b ∷ bs) = ap (λ c. b ∷ c) (take-length bs)

module _ {rb : ℕ} {s : State} {h i : ℕ} {e : OpenFileEntry} {v : Inode} (k : IsHandle rb s h e i v)
    (old bs : List ℕ) (text : IsText s v old) (at_end : e.of_offset ≡ length old)
    (some_bytes : 0 < length bs) where
  -- The bytes of the file after the write.
  Written-IsText : (s' : State) (z : Written rb s h e i v bs s') → IsText s' z.inode (old ++ bs)
  unfolding peek
  Written-IsText s' z = record {
    size = ground (arith, z.size, text.size, at_end, length-append old bs);
    in_block = λ p. (z.block, z.in_block, all);
  }
    where
      width : s'.block_size ≡ s.block_size
      width = ap (λ p. p.block_size) z.params

      before : (o : List ℕ) → o ≡ old → peek s'.fs_data (z.block * s.block_size) (length o) ≡ o
      before [] q = refl
      before (c ∷ o) q =
          let some_old : 0 < length old = omega (arith, ap length q) in
          let (b, at, bytes) = text.in_block some_old in
          let same : b ≡ z.block =
            ground (arith, at, z.same_block (omega (arith, text.size, some_old))) in
          subst (λ o. peek s'.fs_data (z.block * s.block_size) (length o) ≡ o) (sym q)
            (z.other_bytes (z.block * s.block_size) (length old) (inl (omega (arith, at_end)))
              ∙ ap (λ b. peek s.fs_data (b * s.block_size) (length old)) (sym same)
              ∙ bytes)

      all : peek s'.fs_data (z.block * s'.block_size) (length (old ++ bs)) ≡ old ++ bs
      all =
          ap₂ (peek s'.fs_data) (ap (λ w. z.block * w) width) (length-append old bs)
          ∙ peek-append s'.fs_data (z.block * s.block_size) (length old) (length bs)
          ∙ ap₂ ◌++◌ (before old refl) (
              ap (λ o. peek s'.fs_data (z.block * s.block_size + o) (length bs)) (sym at_end)
              ∙ z.bytes)

  Written-Appended :
      (s' : State) (o : Outcome (ℤ × State))
      → o ≡ done (pos (length bs), s')
      → Written rb s h e i v bs s'
      → Appended rb s h e i old bs o
  Written-Appended s' o eq z = record {
    result = s';
    returns = eq;
    sound = z.sound;
    unlocked = z.unlocked;
    inode = z.inode;
    still_open = record {
      opened = ap (λ t. get_elem? t h) z.states ∙ k.opened;
      entry =
          z.offset
          ∙ ap (λ n. some (record e { of_offset = n }))
              (omega (arith, at_end, length-append old bs));
      inumber = k.inumber;
      inode = z.at_inumber;
    };
    text = Written-IsText s' z;
    states = z.states;
    params = z.params;
    listed = z.listed;
  }

-- Between operations, let an open handle stand at the end of a file. Let the bytes behind it in its
-- block be enough for a buffer that is not empty and smaller than half the range of `size_t`, and
-- let the file not be empty or a block be free. Then a `tfs_write` of the buffer returns its length;
-- the file holds the bytes that it held, and the buffer behind them; the handle stands at its end.
-- The directory is as before, and the handles are free or taken as before.
pub tfs_write-Appended :
    {rb : ℕ} {s : State} {h i : ℕ} {e : OpenFileEntry} {v : Inode}
    → IsSound rb s
    → s.mutex_locked ≡ false
    → IsHandle rb s h e i v
    → (old bs : List ℕ) → IsText s v old
    → e.of_offset ≡ length old
    → 0 < length bs
    → length bs < ssize_half
    → length old + length bs ≤ s.block_size
    → (0 < length old) ⊎ (AllTaken s.max_block_count s.free_blocks → ⊥)
    → Appended rb s h e i old bs (tfs_write (pos h) bs (length bs) s)
tfs_write-Appended {rb} {s} {h} {i} {e} {v} ok unheld k old bs text at_end p small fits grows =
    elim (subst (λ n. WriteEnds rb s h e i v bs n (tfs_write (pos h) bs (length bs) s)) all
      (tfs_write-WriteEnds ok unheld k bs (length bs) (omega arith) small)) [
        | nothing z eq ↦ absurd (omega (arith, z, p))
        | no_space q z taken eq ↦ absurd (full z taken grows)
        | written s' q eq z ↦
            Written-Appended k old bs text at_end p s' _ eq
              (subst (λ c. Written rb s h e i v c s') (take-length bs) z)
      ]
  where
    all : min (length bs) (s.block_size - e.of_offset) ≡ length bs
    all = omega (arith, at_end, fits)

    full :
        v.i_size ≡ 0
        → AllTaken s.max_block_count s.free_blocks
        → (0 < length old) ⊎ (AllTaken s.max_block_count s.free_blocks → ⊥)
        → ⊥
    full z taken (inl q) = omega (arith, z, q, text.size)
    full z taken (inr n) = n taken
