-- ===== src/Broker/Service/Within.antt =====
-- What a request adds to the list of names, and takes from it.
use t_cnico_file_system_pt.Prelude.{
  ℕ, ◌+◌, ◌≤◌, ◌≡◌, sym, ap, ◌∙◌, arith, inl, inr, ℤ, List, [], ◌∷◌, ◌++◌, Bool-cases, true, false,
  length, length-append,
}
use t_cnico_file_system_pt.Boxes.{name_eq}
use t_cnico_file_system_pt.Broker.{Broker, World}
use t_cnico_file_system_pt.Broker.Service.Lists.{
  has, without, forget, IsDistinct, has-cons, has-snoc, has-without_self, has-without_ne,
  has-forget_ne, name_eq_sound, name_eq-ne, length-without,
}
use t_cnico_file_system_pt.Broker.Service.{
  Action, to_create, to_remove, to_list, to_publish, published, turned_away, Step, created, refused,
  removed, not_there, listed, MayAsk, may_after,
}

-- The names are among those that may be there.
abbrev pub Within : List (List ℕ) → List (List ℕ) → Type 0
Within names may = (n : List ℕ) → has names n ≡ true → has may n ≡ true

pub MayAsk-Within :
    (names may : List (List ℕ)) (c : Action) (n : List ℕ)
    → Within names may
    → MayAsk c may n
    → MayAsk c names n
MayAsk-Within names may to_create n w e = elim (Bool-cases (has names n)) [
  | inl y ↦ absurd (ground (arith, w n y, e))
  | inr z ↦ z
]
MayAsk-Within names may to_remove n w e = tt
MayAsk-Within names may to_publish n w e = tt
MayAsk-Within names may to_list n w e = tt

pub Step-length :
    (world : World) (names : List (List ℕ)) (s : Broker) (n pipe : List ℕ) (fd : ℤ) (c : Action)
    (names' : List (List ℕ)) (s' : Broker)
    → Step world names s n pipe fd c names' s'
    → length names' ≤ 1 + length names
Step-length world names s n pipe fd c names' s' (created i e f r h) =
    omega (arith, length-append names (n ∷ []))
Step-length world names s n pipe fd c names' s' (refused e r h) = omega arith
Step-length world names s n pipe fd c names' s' (removed e h) =
    omega (arith, length-without names n)
Step-length world names s n pipe fd c names' s' (not_there e h) = omega arith
Step-length world names s n pipe fd c names' s' (listed h) = omega arith
Step-length world names s n pipe fd c names' s' (published e h) = omega arith
Step-length world names s n pipe fd c names' s' (turned_away e h) = omega arith

snoc-Within :
    (names may : List (List ℕ)) (n : List ℕ)
    → Within names may
    → Within (names ++ (n ∷ [])) (n ∷ may)
snoc-Within names may n w m h = elim (Bool-cases (name_eq n m)) [
  | inl y ↦ ground (arith, has-cons may n m, y)
  | inr z ↦
      has-cons may n m ∙ ground (arith, z, w m (ground (arith, sym (has-snoc names n m) ∙ h, z)))
]

cons-Within : (names may : List (List ℕ)) (n : List ℕ) → Within names may → Within names (n ∷ may)
cons-Within names may n w m h = ground (arith, has-cons may n m, w m h)

without-Within :
    (names may : List (List ℕ)) (n : List ℕ)
    → IsDistinct names
    → Within names may
    → Within (without names n) (forget may n)
without-Within names may n d w m h = elim (Bool-cases (name_eq n m)) [
  | inl y ↦ absurd (
      ground (
        arith,
        h,
        ap (has (without names n)) (sym (name_eq_sound n m y)),
        has-without_self names n d,
      ))
  | inr z ↦
      let ne = name_eq-ne n m z in
      has-forget_ne may n m ne ∙ w m (sym (has-without_ne names n m ne) ∙ h)
]

forget-Within :
    (names may : List (List ℕ)) (n : List ℕ)
    → has names n ≡ false
    → Within names may
    → Within names (forget may n)
forget-Within names may n e w m h =
    has-forget_ne may n m (λ q. ground (arith, h, e, ap (has names) q)) ∙ w m h

pub Step-Within :
    (world : World) (names may : List (List ℕ)) (s : Broker) (n pipe : List ℕ) (fd : ℤ) (c : Action)
    (names' : List (List ℕ)) (s' : Broker)
    → IsDistinct names
    → Within names may
    → Step world names s n pipe fd c names' s'
    → Within names' (may_after c may n)
Step-Within world names may s n pipe fd c names' s' d w (created i e f r h) =
    snoc-Within names may n w
Step-Within world names may s n pipe fd c names' s' d w (refused e r h) = cons-Within names may n w
Step-Within world names may s n pipe fd c names' s' d w (removed e h) =
    without-Within names may n d w
Step-Within world names may s n pipe fd c names' s' d w (not_there e h) =
    forget-Within names may n e w
Step-Within world names may s n pipe fd c names' s' d w (listed h) = w
Step-Within world names may s n pipe fd c names' s' d w (published e h) = w
Step-Within world names may s n pipe fd c names' s' d w (turned_away e h) = w
