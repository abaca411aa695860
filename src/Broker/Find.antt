-- ===== src/Broker/Find.antt =====
-- The state of mbroker/mbroker.c between two requests, and what `find_box` does to it.
use t_cnico_file_system_pt.Prelude.{
  ℕ, ◌≤◌, ◌≡◌, refl, sym, ap, ◌∙◌, arith, List, [], ◌∷◌, false, minus_one, Option, none, some,
  length,
}
use t_cnico_file_system_pt.Invariant.Defs.{IsSound}
use t_cnico_file_system_pt.Boxes.{Box, Heap, put, returned, find_box, find_from, unexistent}
use t_cnico_file_system_pt.Boxes.Chain.{
  IsChain, IsOutside, IsSimple, IsChain-put, first_named, put_other, find_from-first_named,
}
use t_cnico_file_system_pt.Broker.{Broker, World, finished, undefined, find}

-- `malloc` gives no address where a box stands.
abbrev pub GivesFresh : World → Type 0
GivesFresh world = (h : Heap) (u : ℕ) → world.malloc h ≡ some u → h u ≡ none

-- The file system is between two operations, and `head` leads to a list of the boxes `xs`.
pub record IsBroker (xs : List ℕ) (s : Broker) : Type 0 where
  pub sound : IsSound 0 s.fs
  pub unlocked : s.fs.mutex_locked ≡ false
  pub chain : IsChain s.heap s.head xs
  pub simple : IsSimple xs

pub IsOutside-none :
    (h : Heap) (p : Option ℕ) (xs : List ℕ) (u : ℕ) → IsChain h p xs → h u ≡ none → IsOutside u xs
IsOutside-none h p [] u c e = tt
IsOutside-none h p (a ∷ xs) u (f, b, at, c) e =
    (λ z. ground (arith, sym (ap h z ∙ at) ∙ e), IsOutside-none h b.next xs u c e)

pub first_named-put :
    (h : Heap) (u : ℕ) (v : Option Box) (xs name : List ℕ)
    → IsOutside u xs
    → first_named (put h u v) xs name ≡ first_named h xs name
unfolding first_named
first_named-put h u v [] name o = refl
first_named-put h u v (a ∷ xs) name o =
    ground (arith, put_other h u a v (λ z. o.0 (sym z)), first_named-put h u v xs name o.1)

-- A change outside the list keeps the state.
pub put-IsBroker :
    (s : Broker) (xs : List ℕ) (u : ℕ) (v : Option Box)
    → IsBroker xs s
    → IsOutside u xs
    → IsBroker xs (record s { heap = put s.heap u v })
put-IsBroker s xs u v ok o = record {
  sound = ok.sound;
  unlocked = ok.unlocked;
  chain = IsChain-put s.heap u v s.head xs o ok.chain;
  simple = ok.simple;
}

-- The heap after the `malloc` of `find_box`.
abbrev pub with_box : World → Heap → Option ℕ → Heap
with_box world h none = h
with_box world h (some u) = put h u (some world.garbage)

-- The allocation of `find_box` does not touch a box of the list.
pub with_box-kept :
    (world : World) (h : Heap) (o : Option ℕ) (p : ℕ) (b : Box)
    → ((u : ℕ) → o ≡ some u → h u ≡ none)
    → h p ≡ some b
    → with_box world h o p ≡ some b
with_box-kept world h none p b fresh e = e
with_box-kept world h (some u) p b fresh e =
    put_other h u p _ (λ z. ground (arith, sym (ap h z) ∙ e, fresh u refl)) ∙ e

-- The box that stands for none.
abbrev pub missing_box : World → Box
missing_box world = record world.garbage {
  box_name = unexistent;
  n_readers = minus_one;
  has_writer = minus_one;
}

module _ (world : World) (fresh : GivesFresh world) {xs : List ℕ} {s : Broker} (ok : IsBroker xs s)
    (fits : length xs ≤ world.rounds) (name : List ℕ) where
  with_box-IsChain :
      (o : Option ℕ) → world.malloc s.heap ≡ o → IsChain (with_box world s.heap o) s.head xs
  with_box-IsChain none e = ok.chain
  with_box-IsChain (some u) e =
      IsChain-put s.heap u (some world.garbage) s.head xs
        (IsOutside-none s.heap s.head xs u ok.chain (fresh s.heap u e)) ok.chain

  pub with_box-first_named :
      (o : Option ℕ)
      → world.malloc s.heap ≡ o
      → first_named (with_box world s.heap o) xs name ≡ first_named s.heap xs name
  with_box-first_named none e = refl
  with_box-first_named (some u) e =
      first_named-put s.heap u (some world.garbage) xs name
        (IsOutside-none s.heap s.head xs u ok.chain (fresh s.heap u e))

  find_from-eq :
      (o : Option ℕ)
      → world.malloc s.heap ≡ o
      → find_from world.rounds (with_box world s.heap o) s.head name
        ≡ returned (first_named s.heap xs name)
  find_from-eq o e =
      find_from-first_named world.rounds (with_box world s.heap o) s.head xs name
        (with_box-IsChain o e) fits
      ∙ ap returned (with_box-first_named o e)

  find_box-found :
      (o : Option ℕ) (a : ℕ)
      → world.malloc s.heap ≡ o
      → first_named s.heap xs name ≡ some a
      → find_box world.rounds o world.garbage s.heap s.head name
        ≡ returned (a, with_box world s.heap o)
  unfolding find_box
  find_box-found none a e f = ground (arith, find_from-eq none e, f)
  find_box-found (some u) a e f = ground (arith, find_from-eq (some u) e, f)

  -- A box of that name is found; the box that was allocated before stays.
  pub find-found :
      (a : ℕ)
      → first_named s.heap xs name ≡ some a
      → find world name s
        ≡ finished (a, record s { heap = with_box world s.heap (world.malloc s.heap) })
  unfolding find
  find-found a f = ground (arith, find_box-found (world.malloc s.heap) a refl f)

  -- No box has the name: the new one stands for it.
  pub find-missing :
      (u : ℕ)
      → world.malloc s.heap ≡ some u
      → first_named s.heap xs name ≡ none
      → find world name s
        ≡ finished (
          u,
          record s { heap = put (put s.heap u (some world.garbage)) u (some (missing_box world)) },
        )
  unfolding find find_box
  find-missing u e f = ground (arith, e, find_from-eq (some u) e, f)

  -- No box has the name, and there is none to stand for it.
  pub find-undefined :
      world.malloc s.heap ≡ none → first_named s.heap xs name ≡ none → find world name s ≡ undefined
  unfolding find find_box
  find-undefined e f = ground (arith, e, find_from-eq none e, f)

  -- The allocation keeps the state between two requests.
  pub with_box-IsBroker :
      IsBroker xs (record s { heap = with_box world s.heap (world.malloc s.heap) })
  with_box-IsBroker = record {
    sound = ok.sound;
    unlocked = ok.unlocked;
    chain = with_box-IsChain (world.malloc s.heap) refl;
    simple = ok.simple;
  }
