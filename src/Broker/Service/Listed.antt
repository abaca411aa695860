-- ===== src/Broker/Service/Listed.antt =====
-- The directory and the list of names, where a file is made or unlinked.
use t_cnico_file_system_pt.Prelude.{
  ℕ, ◌≡◌, refl, sym, ap, ◌∙◌, arith, inl, inr, pos, List, [], ◌∷◌, ◌++◌, Bool-cases, true, false,
}
use t_cnico_file_system_pt.State.Dir.Listing.{lookup, has_room, insert, IsCString}
use t_cnico_file_system_pt.State.Dir.Listing as Listing
use t_cnico_file_system_pt.State.Dir.Laws.{
  IsFileName, lookup-insert_self, lookup-insert_ne, lookup-remove_self, lookup-remove_ne,
}
use t_cnico_file_system_pt.Invariant.Defs.{root_entries}
use t_cnico_file_system_pt.Boxes.{name_eq}
use t_cnico_file_system_pt.Broker.{Broker}
use t_cnico_file_system_pt.Broker.Find.{IsBroker}
use t_cnico_file_system_pt.Broker.Service.Lists.{
  has, without, IsDistinct, has-snoc, name_eq_sound, name_eq-ne, has-without_self, has-without_ne,
}
use t_cnico_file_system_pt.Broker.Service.{IsListed}

pub IsListed-same :
    (names : List (List ℕ)) (s s' : Broker)
    → root_entries 0 s'.fs ≡ root_entries 0 s.fs
    → IsListed names s
    → IsListed names s'
IsListed-same names s s' e l n f =
    let at = ap (λ es. lookup es n) e in
    (λ h. let (i, z) = (l n f).0 h in (i, at ∙ z), λ h. at ∙ (l n f).1 h)

pub IsListed-insert :
    (names : List (List ℕ)) (s s' : Broker) (n : List ℕ) (i : ℕ)
    → IsFileName n
    → has names n ≡ false
    → has_room (root_entries 0 s.fs) ≡ true
    → root_entries 0 s'.fs ≡ insert (root_entries 0 s.fs) n (pos i)
    → IsListed names s
    → IsListed (names ++ (n ∷ [])) s'
IsListed-insert names s s' n i file new room e l m f = elim (Bool-cases (name_eq n m)) [
  | inl y ↦
      let same : n ≡ m = name_eq_sound n m y in
      (
        λ h. (
          i,
          ap (λ es. lookup es m) e
              ∙ ap (lookup (insert (root_entries 0 s.fs) n (pos i))) (sym same)
              ∙ lookup-insert_self (root_entries 0 s.fs) n (pos i) file refl room
                  ((l n file).1 new),
        ),
        λ h. absurd (ground (arith, h, has-snoc names n m, y)),
      )
  | inr z ↦
      let at =
        ap (λ es. lookup es m) e
        ∙ lookup-insert_ne (root_entries 0 s.fs) n m (pos i) file f.bytes (name_eq-ne n m z) in
      (
        λ h. let (j, q) = (l m f).0 (ground (arith, h, has-snoc names n m, z)) in (j, at ∙ q),
        λ h. at ∙ (l m f).1 (ground (arith, h, has-snoc names n m, z)),
      )
]

pub IsListed-remove :
    (names : List (List ℕ)) (s s' : Broker) (n : List ℕ) (xs : List ℕ)
    → IsBroker xs s
    → IsFileName n
    → IsDistinct names
    → root_entries 0 s'.fs ≡ Listing.remove (root_entries 0 s.fs) n
    → IsListed names s
    → IsListed (without names n) s'
IsListed-remove names s s' n xs ok file d e l m f = elim (Bool-cases (name_eq n m)) [
  | inl y ↦
      let same : n ≡ m = name_eq_sound n m y in
      (
        λ h.
            absurd (
              ground (arith, h, ap (has (without names n)) (sym same), has-without_self names n d)),
        λ h.
            ap (λ es. lookup es m) e
            ∙ ap (lookup (Listing.remove (root_entries 0 s.fs) n)) (sym same)
            ∙ lookup-remove_self (root_entries 0 s.fs) n ok.sound.directory.distinct file.bytes,
      )
  | inr z ↦
      let ne = name_eq-ne n m z in
      let at =
        ap (λ es. lookup es m) e
        ∙ lookup-remove_ne (root_entries 0 s.fs) n m ok.sound.directory.tidy file.bytes f.bytes
            ne in
      (
        λ h. let (j, q) = (l m f).0 (sym (has-without_ne names n m ne) ∙ h) in (j, at ∙ q),
        λ h. at ∙ (l m f).1 (sym (has-without_ne names n m ne) ∙ h),
      )
]
