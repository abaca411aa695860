-- ===== src/Broker/Post.antt =====
-- What holds of a run of mbroker/mbroker.c where it returns.
use t_cnico_file_system_pt.Prelude.{◌≡◌, refl, sym, ap, some, ℕ}
use t_cnico_file_system_pt.State.Types.{Outcome, done, panic, fault, deadlock, State, Fs}
use t_cnico_file_system_pt.Broker.{
  Broker, Run, finished, exits, undefined, stuck, endless, Serving, continue, value, calls, walks,
  load_box, store_box,
}
use t_cnico_file_system_pt.Boxes.{Box, put, Walk, returned}
use mathlib.Core.Path.{subst}

abbrev pub Post : {A : Type 0} → (A → Broker → Type 0) → Run (A × Broker) → Type 0
Post P (finished (a, s)) = P a s
Post P exits = Unit
Post P undefined = Unit
Post P stuck = Unit
Post P endless = Unit

-- A run that does not return.
abbrev pub NeverReturns : {A : Type 0} → Run (A × Broker) → Type 0
NeverReturns run = Post (λ a s. ⊥) run

pub continue-Post :
    {A B : Type 0} (P : A → Broker → Type 0) (Q : B → Broker → Type 0) (r : Run (A × Broker))
    (f : A → Serving B)
    → Post P r
    → ((a : A) (s : Broker) → P a s → Post Q (f a s))
    → Post Q (continue r f)
continue-Post P Q (finished (a, s)) f p h = h a s p
continue-Post P Q exits f p h = tt
continue-Post P Q undefined f p h = tt
continue-Post P Q stuck f p h = tt
continue-Post P Q endless f p h = tt

-- A value that C may leave undefined changes nothing.
pub value-Post : {A : Type 0} (o : Outcome A) (s : Broker) → Post (λ a s'. s' ≡ s) (value o s)
value-Post (done a) s = refl
value-Post panic s = tt
value-Post fault s = tt
value-Post deadlock s = tt

pub Post-weaken :
    {A : Type 0} (P Q : A → Broker → Type 0) (r : Run (A × Broker))
    → Post P r
    → ((a : A) (s : Broker) → P a s → Q a s)
    → Post Q r
Post-weaken P Q (finished (a, s)) p h = h a s p
Post-weaken P Q exits p h = tt
Post-weaken P Q undefined p h = tt
Post-weaken P Q stuck p h = tt
Post-weaken P Q endless p h = tt

-- A call of the file system that returns.
pub calls-eq :
    {A : Type 0} (m : Fs A) (s : Broker) (a : A) (fs : State)
    → m s.fs ≡ done (a, fs)
    → calls m s ≡ finished (a, record s { fs = fs })
calls-eq m s a fs e = rw (e, calls) refl

pub calls-Post :
    {A : Type 0} (P : A → Broker → Type 0) (m : Fs A) (s : Broker) (a : A) (fs : State)
    → m s.fs ≡ done (a, fs)
    → P a (record s { fs = fs })
    → Post P (calls m s)
calls-Post P m s a fs e p = subst (Post P) (sym (calls-eq m s a fs e)) p

-- A step that returns.
pub continue-finished :
    {A B : Type 0} (P : B → Broker → Type 0) (r : Run (A × Broker)) (f : A → Serving B) (a : A)
    (s : Broker)
    → r ≡ finished (a, s)
    → Post P (f a s)
    → Post P (continue r f)
continue-finished P r f a s e p = subst (λ r. Post P (continue r f)) (sym e) p

pub load_box-eq :
    (p : ℕ) (b : Box) (s : Broker) → s.heap p ≡ some b → load_box p s ≡ finished (b, s)
load_box-eq p b s e = rw (e, load_box) refl

pub store_box-eq :
    (p : ℕ) (old b : Box) (s : Broker)
    → s.heap p ≡ some old
    → store_box p b s ≡ finished (tt, record s { heap = put s.heap p (some b) })
unfolding store_box
store_box-eq p old b s e = rw (e, store_box) refl

pub continue-eq :
    {A B : Type 0} (r : Run (A × Broker)) (f : A → Serving B) (a : A) (s : Broker)
    → r ≡ finished (a, s)
    → continue r f ≡ f a s
continue-eq r f a s e = ap (λ r. continue r f) e

pub walks-eq :
    {A B : Type 0} (walk : Broker → Walk A) (make : Broker → A → B × Broker) (s : Broker) (a : A)
    → walk s ≡ returned a
    → walks walk make s ≡ finished (make s a)
walks-eq walk make s a e = rw (e, walks) refl

pub value-eq :
    {A : Type 0} (o : Outcome A) (a : A) (s : Broker) → o ≡ done a → value o s ≡ finished (a, s)
value-eq o a s e = ap (λ o. value o s) e

pub continue-undefined :
    {A B : Type 0} (r : Run (A × Broker)) (f : A → Serving B)
    → r ≡ undefined
    → continue r f ≡ undefined
continue-undefined r f e = ap (λ r. continue r f) e
