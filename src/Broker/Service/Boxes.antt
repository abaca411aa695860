-- ===== src/Broker/Service/Boxes.antt =====
-- The boxes of the list in utils/logging.c under their names, without publishers and subscribers.
use t_cnico_file_system_pt.Prelude.{
  ℕ, suc, ◌<◌, ◌≡◌, ◌≢◌, refl, sym, ap, ◌∙◌, arith, pos, List, [], ◌∷◌, ◌++◌, true, false,
  Bool-cases, inl, inr, Option, none, some, length,
}
use mathlib.Core.Path.{subst}
use t_cnico_file_system_pt.Operations.Open.{slash}
use t_cnico_file_system_pt.Boxes.{Box, Heap, name_eq}
use t_cnico_file_system_pt.Boxes.Chain.{IsOutside, IsSimple, has_name, first_named}
use t_cnico_file_system_pt.Boxes.Delete.{without_first}
use t_cnico_file_system_pt.Boxes.Insert.{contents}
use t_cnico_file_system_pt.Messages.{box_name_size}
use t_cnico_file_system_pt.Broker.Manage.Listing.{FitNames}
use t_cnico_file_system_pt.Broker.Service.Lists.{has, without, name_eq_sound}

-- The boxes at these addresses have these names behind the slash.
abbrev pub AreNamed : Heap → List ℕ → List (List ℕ) → Type 0
AreNamed h [] [] = Unit
AreNamed h [] (n ∷ names) = ⊥
AreNamed h (a ∷ xs) [] = ⊥
AreNamed h (a ∷ xs) (n ∷ names) =
    (contents (h a) ≡ some (slash ∷ n, pos 0, pos 0))
    × (length (slash ∷ n) < box_name_size)
    × AreNamed h xs names

pub length-AreNamed :
    (h : Heap) (xs : List ℕ) (names : List (List ℕ))
    → AreNamed h xs names
    → length xs ≡ length names
length-AreNamed h [] [] d = refl
length-AreNamed h [] (n ∷ names) d = elim d [ ]
length-AreNamed h (a ∷ xs) [] d = elim d [ ]
length-AreNamed h (a ∷ xs) (n ∷ names) (e, f, d) = ap suc (length-AreNamed h xs names d)

-- A box with these contents.
pub record Holding (o : Option Box) (name : List ℕ) : Type 0 where
  pub box : Box
  pub here : o ≡ some box
  pub has_the_name : box.box_name ≡ name
  pub no_writer : box.has_writer ≡ pos 0
  pub no_readers : box.n_readers ≡ pos 0

pub holding :
    (o : Option Box) (name : List ℕ) → contents o ≡ some (name, pos 0, pos 0) → Holding o name
holding none name e = absurd (ground (arith, e))
holding (some b) name e = record {
  box = b;
  here = refl;
  has_the_name = ground (arith, e);
  no_writer = ground (arith, e);
  no_readers = ground (arith, e);
}

name_eq-slash : (m n : List ℕ) → name_eq (slash ∷ m) (slash ∷ n) ≡ name_eq m n
unfolding name_eq
name_eq-slash m n = ground arith

has_name-AreNamed :
    (h : Heap) (a : ℕ) (m n : List ℕ)
    → contents (h a) ≡ some (slash ∷ m, pos 0, pos 0)
    → has_name h a (slash ∷ n) ≡ name_eq m n
has_name-AreNamed h a m n e =
    let c = holding (h a) (slash ∷ m) e in ground (arith, c.here, c.has_the_name, name_eq-slash m n)

pub first_named-none :
    (h : Heap) (xs : List ℕ) (names : List (List ℕ)) (n : List ℕ)
    → AreNamed h xs names
    → has names n ≡ false
    → first_named h xs (slash ∷ n) ≡ none
unfolding first_named has
first_named-none h [] [] n d e = refl
first_named-none h [] (m ∷ names) n d e = elim d [ ]
first_named-none h (a ∷ xs) [] n d e = elim d [ ]
first_named-none h (a ∷ xs) (m ∷ names) n (c, f, d) e =
    ground (arith, e, has_name-AreNamed h a m n c, first_named-none h xs names n d)

-- The first box of a name that the list has.
pub record Located (h : Heap) (xs : List ℕ) (n : List ℕ) : Type 0 where
  pub address : ℕ
  pub box : Box
  pub found : first_named h xs (slash ∷ n) ≡ some address
  pub here : h address ≡ some box
  pub has_the_name : box.box_name ≡ slash ∷ n
  pub no_writer : box.has_writer ≡ pos 0
  pub no_readers : box.n_readers ≡ pos 0

pub first_named-Located :
    (h : Heap) (xs : List ℕ) (names : List (List ℕ)) (n : List ℕ)
    → AreNamed h xs names
    → has names n ≡ true
    → Located h xs n
unfolding first_named has
first_named-Located h [] [] n d e = absurd (ground (arith, e))
first_named-Located h [] (m ∷ names) n d e = elim d [ ]
first_named-Located h (a ∷ xs) [] n d e = elim d [ ]
first_named-Located h (a ∷ xs) (m ∷ names) n (c, f, d) e = elim (Bool-cases (name_eq m n)) [
  | inl y ↦
      let k = holding (h a) (slash ∷ m) c in
      record {
        address = a;
        box = k.box;
        found = ground (arith, has_name-AreNamed h a m n c, y);
        here = k.here;
        has_the_name = k.has_the_name ∙ ap (λ m. slash ∷ m) (name_eq_sound m n y);
        no_writer = k.no_writer;
        no_readers = k.no_readers;
      }
  | inr z ↦
      let r = first_named-Located h xs names n d (ground (arith, e, z)) in
      record {
        address = r.address;
        box = r.box;
        found = ground (arith, has_name-AreNamed h a m n c, z, r.found);
        here = r.here;
        has_the_name = r.has_the_name;
        no_writer = r.no_writer;
        no_readers = r.no_readers;
      }
]

-- Boxes that keep their contents keep their names.
pub AreNamed-kept :
    (h h' : Heap) (p : ℕ) (xs : List ℕ) (names : List (List ℕ))
    → AreNamed h xs names
    → IsOutside p xs
    → ((x : ℕ) (b : Box) → h x ≡ some b → x ≢ p → contents (h' x) ≡ contents (h x))
    → AreNamed h' xs names
AreNamed-kept h h' p [] [] d o k = tt
AreNamed-kept h h' p [] (m ∷ names) d o k = elim d [ ]
AreNamed-kept h h' p (a ∷ xs) [] d o k = elim d [ ]
AreNamed-kept h h' p (a ∷ xs) (m ∷ names) (c, f, d) o k =
    let b = holding (h a) (slash ∷ m) c in
    (k a b.box b.here (λ z. o.0 (sym z)) ∙ c, f, AreNamed-kept h h' p xs names d o.1 k)

pub AreNamed-same :
    (h h' : Heap) (xs : List ℕ) (names : List (List ℕ))
    → AreNamed h xs names
    → ((x : ℕ) (b : Box) → h x ≡ some b → h' x ≡ some b)
    → AreNamed h' xs names
AreNamed-same h h' [] [] d k = tt
AreNamed-same h h' [] (m ∷ names) d k = elim d [ ]
AreNamed-same h h' (a ∷ xs) [] d k = elim d [ ]
AreNamed-same h h' (a ∷ xs) (m ∷ names) (c, f, d) k =
    let b = holding (h a) (slash ∷ m) c in
    (ap contents (k a b.box b.here ∙ sym b.here) ∙ c, f, AreNamed-same h h' xs names d k)

pub AreNamed-snoc :
    (h : Heap) (u : ℕ) (xs : List ℕ) (names : List (List ℕ)) (n : List ℕ)
    → AreNamed h xs names
    → contents (h u) ≡ some (slash ∷ n, pos 0, pos 0)
    → length (slash ∷ n) < box_name_size
    → AreNamed h (xs ++ (u ∷ [])) (names ++ (n ∷ []))
AreNamed-snoc h u [] [] n d c f = (c, f, tt)
AreNamed-snoc h u [] (m ∷ names) n d c f = elim d [ ]
AreNamed-snoc h u (a ∷ xs) [] n d c f = elim d [ ]
AreNamed-snoc h u (a ∷ xs) (m ∷ names) n (e, g, d) c f = (e, g, AreNamed-snoc h u xs names n d c f)

pub AreNamed-without :
    (h : Heap) (xs : List ℕ) (names : List (List ℕ)) (n : List ℕ)
    → AreNamed h xs names
    → AreNamed h (without_first h xs (slash ∷ n)) (without names n)
unfolding without_first without
AreNamed-without h [] [] n d = tt
AreNamed-without h [] (m ∷ names) n d = elim d [ ]
AreNamed-without h (a ∷ xs) [] n d = elim d [ ]
AreNamed-without h (a ∷ xs) (m ∷ names) n (c, f, d) = elim (Bool-cases (name_eq m n)) [
  | inl y ↦ rw (has_name-AreNamed h a m n c ∙ y, y) d
  | inr z ↦ rw (has_name-AreNamed h a m n c ∙ z, z) (c, f, AreNamed-without h xs names n d)
]

outside_not :
    (h : Heap) (xs name : List ℕ) (x p : ℕ)
    → IsOutside x xs
    → first_named h xs name ≡ some p
    → x ≢ p
unfolding first_named
outside_not h [] name x p o e = absurd (ground (arith, e))
outside_not h (a ∷ xs) name x p o e = elim (Bool-cases (has_name h a name)) [
  | inl y ↦ λ z. o.0 (ground (arith, z, y, e))
  | inr y ↦ outside_not h xs name x p o.1 (ground (arith, y, e))
]

-- The box that is taken out is not in what stays.
pub without_first-first_named :
    (h : Heap) (xs name : List ℕ) (p : ℕ)
    → IsSimple xs
    → first_named h xs name ≡ some p
    → IsOutside p (without_first h xs name)
unfolding first_named without_first
without_first-first_named h [] name p d e = absurd (ground (arith, e))
without_first-first_named h (a ∷ xs) name p d e = elim (Bool-cases (has_name h a name)) [
  | inl y ↦
      let z : a ≡ p = ground (arith, y, e) in
      rw (y, without_first) (subst (λ x. IsOutside x xs) z d.0)
  | inr y ↦
      let f : first_named h xs name ≡ some p = ground (arith, y, e) in
      rw (y, without_first)
        (λ z. outside_not h xs name a p d.0 f (sym z), without_first-first_named h xs name p d.1 f)
]

pub FitNames-AreNamed :
    (h : Heap) (xs : List ℕ) (names : List (List ℕ)) → AreNamed h xs names → FitNames h xs
FitNames-AreNamed h [] [] d = tt
FitNames-AreNamed h [] (m ∷ names) d = elim d [ ]
FitNames-AreNamed h (a ∷ xs) [] d = elim d [ ]
FitNames-AreNamed h (a ∷ xs) (m ∷ names) (c, f, d) = (
  λ b e.
      let k = holding (h a) (slash ∷ m) c in
      let same : k.box ≡ b = ground (arith, sym k.here ∙ e) in
      rw (sym (ap (λ b. length b.box_name) same), ap length k.has_the_name) f,
  FitNames-AreNamed h xs names d,
)
