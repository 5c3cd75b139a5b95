-- ===== src/Methods.antt =====
-- How a method of a core of this repository is modelled: it takes the state and gives its result, the
-- state after it, and what it did, in order. Relations between the two states and the effects go
-- along with the chaining of methods, and along runs of events.
use mathlib.Core.List.{append_assoc}
use bft_mvba.Base.{
  Bool, true, false, List, [], ◌∷◌, ◌++◌, Outcome, ok, err, panic, if◌then◌else◌, ◌≡◌, refl, sym,
}
use bft_mvba.Committee.{NodeId, Committee}
use bft_mvba.Crypto.{SigService}

-- The fields of a core that never change.
pub record Identity : Type 0 where
  pub name : NodeId
  pub committee : Committee
  pub sig_service : SigService

abbrev pub Method : Type 0 → Type 0 → Type 0 → Type 0
Method S E A = S → Outcome A × S × List E

module _ {S E : Type 0} where
  -- What was done before comes first.
  abbrev pub behind : {A : Type 0} → List E → Outcome A × S × List E → Outcome A × S × List E
  behind es (r, c, fs) = (r, c, es ++ fs)

  abbrev pub and_then :
      {A B : Type 0} → Outcome A × S × List E → (A → Method S E B) → Outcome B × S × List E
  and_then (ok a, c, es) f = behind es (f a c)
  and_then (err e, c, es) f = (err e, c, es)
  and_then (panic, c, es) f = (panic, c, es)

  infixl 5 ◌>>=◌ ◌>>◌
  abbrev pub ◌>>=◌ : {A B : Type 0} → Method S E A → (A → Method S E B) → Method S E B
  ◌>>=◌ m f c = and_then (m c) f

  abbrev pub ◌>>◌ : {B : Type 0} → Method S E (Unit {0}) → Method S E B → Method S E B
  ◌>>◌ m k c = and_then (m c) (λ _. k)

  abbrev pub pure : {A : Type 0} → A → Method S E A
  pure a c = (ok a, c, [])

  -- `return nil`
  abbrev pub return_nil : Method S E (Unit {0})
  return_nil c = (ok tt, c, [])

  abbrev pub lift : {A : Type 0} → Outcome A → Method S E A
  lift r c = (r, c, [])

  -- The state as it is.
  abbrev pub core : Method S E S
  core c = (ok c, c, [])

  abbrev pub modify : (S → S) → Method S E (Unit {0})
  modify f c = (ok tt, f c, [])

  abbrev pub emit : List E → Method S E (Unit {0})
  emit es c = (ok tt, c, es)

  module _ {ℓ} (R : S → S → List E → Type ℓ) where
    pub record IsTrace : Type ℓ where
      pub still : (c : S) → R c c []
      pub chain : (c d e : S) (es fs : List E) → R c d es → R d e fs → R c e (es ++ fs)

    -- The method keeps to the relation from every state, whatever it returns.
    abbrev pub Respects : {A : Type 0} → Method S E A → Type ℓ
    Respects m = (c : S) → R c (m c).1 (m c).2

  module _ {ℓ} {R : S → S → List E → Type ℓ} (t : IsTrace R) where
    and_then-respects :
        {A B : Type 0} (c : S) (x : Outcome A × S × List E) (f : A → Method S E B)
        → R c x.1 x.2
        → ((a : A) → Respects R (f a))
        → R c (and_then x f).1 (and_then x f).2
    and_then-respects c (ok a, d, es) f h k = t.chain c d (f a d).1 es (f a d).2 h (k a d)
    and_then-respects c (err e, d, es) f h k = h
    and_then-respects c (panic, d, es) f h k = h

    pub Respects-bind :
        {A B : Type 0} (m : Method S E A) (f : A → Method S E B)
        → Respects R m
        → ((a : A) → Respects R (f a))
        → Respects R (m >>= f)
    Respects-bind m f h k c = and_then-respects c (m c) f (h c) k

    pub Respects-next :
        {B : Type 0} (m : Method S E (Unit {0})) (k : Method S E B)
        → Respects R m
        → Respects R k
        → Respects R (m >> k)
    Respects-next m k h g c = and_then-respects c (m c) (λ _. k) (h c) (λ _. g)

  module _ {ℓ} (R : S → S → List E → Type ℓ) where
    pub Respects-if :
        {A : Type 0} (b : Bool) (m k : Method S E A)
        → (b ≡ true → Respects R m)
        → (b ≡ false → Respects R k)
        → Respects R (if b then m else k)
    Respects-if true m k h g = h refl
    Respects-if false m k h g = g refl

  -- A method of one kind behind one of another kind.
  pub record Mixes {ℓ} (R Q T : S → S → List E → Type ℓ) : Type ℓ where
    pub stop : (c d : S) (es : List E) → R c d es → T c d es
    pub go : (c d k : S) (es fs : List E) → R c d es → Q d k fs → T c k (es ++ fs)

  module _ {ℓ} {R Q T : S → S → List E → Type ℓ} (x : Mixes R Q T) where
    and_then-mixed :
        {A B : Type 0} (c : S) (o : Outcome A × S × List E) (f : A → Method S E B)
        → R c o.1 o.2
        → ((a : A) → Respects Q (f a))
        → T c (and_then o f).1 (and_then o f).2
    and_then-mixed c (ok a, d, es) f h k = x.go c d (f a d).1 es (f a d).2 h (k a d)
    and_then-mixed c (err e, d, es) f h k = x.stop c d es h
    and_then-mixed c (panic, d, es) f h k = x.stop c d es h

    pub mixed-bind :
        {A B : Type 0} (m : Method S E A) (f : A → Method S E B)
        → Respects R m
        → ((a : A) → Respects Q (f a))
        → Respects T (m >>= f)
    mixed-bind m f h k c = and_then-mixed c (m c) f (h c) k

    pub mixed-next :
        {B : Type 0} (m : Method S E (Unit {0})) (k : Method S E B)
        → Respects R m
        → Respects Q k
        → Respects T (m >> k)
    mixed-next m k h g c = and_then-mixed c (m c) (λ _. k) (h c) (λ _. g)

-- A node on which events run in any order: the node after some events, the newest first, and what it
-- did, the oldest effect first.
pub data Reaches {S E Event : Type 0} (run : Event → Method S E (Unit {0})) (c : S)
    : S → List Event → List E → Type 0 where
  start : Reaches run c c [] []
  later :
      {d : S} {evs : List Event} {es : List E} (ev : Event)
      → Reaches run c d evs es
      → Reaches run c (run ev d).1 (ev ∷ evs) (es ++ (run ev d).2)

module _ {ℓ} {S E Event : Type 0} {run : Event → Method S E (Unit {0})}
    {R : S → S → List E → Type ℓ} (t : IsTrace R) where
  -- What every event keeps to, every run keeps to.
  pub Reaches-Respects :
      {c d : S} {evs : List Event} {es : List E}
      → ((ev : Event) → Respects R (run ev))
      → Reaches run c d evs es
      → R c d es
  Reaches-Respects {c} h start = t.still c
  Reaches-Respects {c} h (later {d} {evs} {es} ev r) =
      t.chain c d (run ev d).1 es (run ev d).2 (Reaches-Respects h r) (h ev d)

module _ {S E Event : Type 0} (run : Event → Method S E (Unit {0})) where
  -- The node after a list of events, the newest first, and what it did.
  unfoldable pub run_all : S → List Event → S × List E
  run_all c [] = (c, [])
  run_all c (ev ∷ evs) = let (d, es) = run_all c evs in let (_, k, out) = run ev d in (k, es ++ out)

  pub run_all-Reaches :
      (c : S) (evs : List Event) → Reaches run c (run_all c evs).0 evs (run_all c evs).1
  unfolding run_all
  run_all-Reaches c [] = start
  run_all-Reaches c (ev ∷ evs) = later ev (run_all-Reaches c evs)

module _ {E A : Type 0} where
  -- What a list of effects shows to an observer.
  abbrev pub gather : (E → List A) → List E → List A
  gather f [] = []
  gather f (e ∷ es) = f e ++ gather f es

  pub gather-append :
      (f : E → List A) (es fs : List E) → gather f (es ++ fs) ≡ gather f es ++ gather f fs
  gather-append f [] fs = refl
  gather-append f (e ∷ es) fs =
      rw (gather-append f es fs) (sym (append_assoc (f e) (gather f es) (gather f fs)))
