-- ===== src/Broker/Manage/Existing/Freed.antt =====
-- A file that is opened behind its end, and a walk along a list with a freed box.
use t_cnico_file_system_pt.Prelude.{set}
use t_cnico_file_system_pt.Broker.Manage.Create.{reclosed}
use t_cnico_file_system_pt.Prelude.{
  ℕ, zero, suc, ◌≤◌, ◌≡◌, ◌≢◌, refl, sym, ap, ◌∙◌, arith, pos, List, [], ◌∷◌, false, Bool-cases,
  inl, inr, Option, none, some, get_elem?, get_elem?-set_self, get_elem?_bound, length, ◌==◌,
  ==_iff,
}
use t_cnico_file_system_pt.State.Types.{State, done, free, taken}
use t_cnico_file_system_pt.State.Dir.Listing.{lookup}
use t_cnico_file_system_pt.Invariant.Defs.{IsSound, root_entries}
use t_cnico_file_system_pt.Operations.Open.{tfs_open}
use t_cnico_file_system_pt.Operations.Open.Handle.{path_to, table_full, handle}
use t_cnico_file_system_pt.Operations.Open.Existing.{tfs_open-Reopens}
use t_cnico_file_system_pt.Boxes.{Heap, put, invalid, iterate_box}
use t_cnico_file_system_pt.Boxes.Chain.{
  IsChain, IsOutside, first_named, has_name, put_other, put_same,
}

-- A file of the directory is opened behind its end, where a handle is free.
pub record Appends (fs : State) (path : Option (List ℕ)) : Type 0 where
  pub number : ℕ
  pub opened : State
  pub opens : tfs_open path 4 fs ≡ done (pos number, opened)
  pub sound : IsSound 0 opened
  pub unlocked : opened.mutex_locked ≡ false
  pub is_open : get_elem? opened.free_open_file_entries number ≡ some taken
  pub same_directory : root_entries 0 opened ≡ root_entries 0 fs
  pub same_handles : set opened.free_open_file_entries number free ≡ fs.free_open_file_entries

pub opens_listed :
    (fs : State) (c : ℕ) (name : List ℕ) (i h : ℕ)
    → IsSound 0 fs
    → fs.mutex_locked ≡ false
    → lookup (root_entries 0 fs) (c ∷ name) ≡ pos i
    → get_elem? fs.free_open_file_entries h ≡ some free
    → Appends fs (path_to c name)
opens_listed fs c name i h ok unheld e f =
    let r = tfs_open-Reopens c name 4 i ok unheld e in
    elim r.opens [
      | table_full all eq sound ↦ absurd (
          ground (
            arith,
            all h (
                omega (
                  arith,
                  get_elem?_bound fs.free_open_file_entries h free f,
                  ok.shape.open_file_states,
                )),
            f,
          ))
      | handle k g before eq sound ↦ record {
        number = k;
        opened = _;
        opens = eq;
        sound = sound;
        unlocked = refl;
        is_open =
            get_elem?-set_self fs.free_open_file_entries k taken
              (get_elem?_bound fs.free_open_file_entries k free g);
        same_directory = refl;
        same_handles = reclosed fs k g;
      }
    ]

-- A walk along a list that still leads to a box that is freed.
pub iterate_box-invalid :
    (rounds : ℕ) (h : Heap) (q : Option ℕ) (xs : List ℕ) (p : ℕ)
    → IsChain h q xs
    → (IsOutside p xs → ⊥)
    → length xs ≤ rounds
    → iterate_box rounds (put h p none) q ≡ invalid
unfolding iterate_box
iterate_box-invalid rounds h q [] p c inside l = absurd (inside tt)
iterate_box-invalid zero h q (a ∷ xs) p c inside l = absurd (omega arith)
iterate_box-invalid (suc rounds) h q (a ∷ xs) p (e, b, at, c) inside l =
    elim (Bool-cases (p == a)) [
      | inl y ↦
          let freed : put h p none a ≡ none =
            ap (put h p none) (sym ((==_iff p a).0 y)) ∙ put_same h p none in
          rw (e, freed, iterate_box) refl
      | inr n ↦
          let differs : p ≢ a = λ z. ground (arith, n, z) in
          let kept : put h p none a ≡ some b = put_other h p a none (λ z. differs (sym z)) ∙ at in
          rw (e, kept, iterate_box)
            (iterate_box-invalid rounds h b.next xs p c (λ o. inside (differs, o))
              (omega (arith, l)))
    ]

pub first_named-inside :
    (h : Heap) (xs name : List ℕ) (p : ℕ) → first_named h xs name ≡ some p → IsOutside p xs → ⊥
unfolding first_named
first_named-inside h [] name p e o = ground (arith, e)
first_named-inside h (a ∷ xs) name p e o = elim (Bool-cases (has_name h a name)) [
  | inl y ↦ o.0 (ground (arith, e, y))
  | inr n ↦ first_named-inside h xs name p (ground (arith, e, n)) o.1
]
