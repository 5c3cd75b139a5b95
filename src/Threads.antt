-- ===== src/Threads.antt =====
-- How the goroutines of an instance are modelled where they are cut at their mutexes and atomic reads
-- and writes: what they share, and for each of them the point that it has come to. A step lets a new
-- goroutine run to its first point, or one of those that wait at a point run to its next one.
use bft_mvba.Base.{
  ℕ, zero, suc, ◌+◌, ◌≤◌, ◌<◌, List, [], ◌∷◌, ◌++◌, length, Option, none, some, Outcome, ok, err,
  panic, ◌≡◌, refl, arith, ◌⊎◌, inl, inr,
}
use bft_mvba.Methods.{Method, Reaches, start, later}

pub record Running (S P : Type 0) : Type 0 where
  pub shared : S
  pub points : List P

pub data Step (T : Type 0) : Type 0 where
  enter : T → Step T
  go_on : ℕ → Step T

module _ {A : Type 0} where
  -- The entry at a place, and the list without it.
  abbrev pub pick : ℕ → List A → Option (A × List A)
  pick i [] = none
  pick zero (x ∷ xs) = some (x, xs)
  pick (suc i) (x ∷ xs) = elim (pick i xs) [ none ↦ none | some (a, rest) ↦ some (a, x ∷ rest) ]

  abbrev pub total : (A → ℕ) → List A → ℕ
  total f [] = 0
  total f (x ∷ xs) = f x + total f xs

  pub total-append : (f : A → ℕ) (xs ys : List A) → total f (xs ++ ys) ≡ total f xs + total f ys
  total-append f [] ys = omega arith
  total-append f (x ∷ xs) ys = omega (arith, total-append f xs ys)

  abbrev pub points_of : Outcome (List A) → List A
  points_of (ok ps) = ps
  points_of (err _) = []
  points_of panic = []

module _ {S P E : Type 0} where
  -- A goroutine that has come to its next point joins the others behind the last one.
  abbrev pub resume :
      List P → Outcome (List P) × S × List E → Outcome (Unit {0}) × Running S P × List E
  resume rest (ok ps, s, es) = (ok tt, record { shared = s; points = rest ++ ps }, es)
  resume rest (err e, s, es) = (err e, record { shared = s; points = rest }, es)
  resume rest (panic, s, es) = (panic, record { shared = s; points = rest }, es)

  abbrev pub pick_on :
      (P → Method S E (List P))
      → Running S P
      → Option (P × List P)
      → Outcome (Unit {0}) × Running S P × List E
  pick_on advance r none = (ok tt, r, [])
  pick_on advance r (some (p, rest)) = resume rest (advance p r.shared)

  unfoldable pub run_step :
      {T : Type 0}
      → (T → Method S E (List P))
      → (P → Method S E (List P))
      → Step T
      → Method (Running S P) E (Unit {0})
  run_step first advance (enter t) r = resume r.points (first t r.shared)
  run_step first advance (go_on i) r = pick_on advance r (pick i r.points)

abbrev pub entered : {T : Type 0} → (T → ℕ) → List (Step T) → ℕ
entered w [] = 0
entered w (enter t ∷ ks) = w t + entered w ks
entered w (go_on _ ∷ ks) = entered w ks

module _ {S P E T : Type 0} (first : T → Method S E (List P))
    (advance : P → Method S E (List P)) where
  -- Over fewer than so many moves, each with what holds of what is shared after as many moves: what a
  -- goroutine carries to a point comes out as effects, is kept in what is shared, or goes on with it.
  pub record Balance {ℓ} (bound : ℕ) (H : ℕ → S → Type ℓ) (m : S → ℕ) (f : P → ℕ) (g : E → ℕ)
      (w : T → ℕ) : Type ℓ where
    pub waits : (k : ℕ) (s : S) → H k s → H (suc k) s
    pub enters : (k : ℕ) (s : S) (t : T) → k < bound → H k s → H (suc k) (first t s).1
    pub advances : (k : ℕ) (s : S) (p : P) → k < bound → H k s → H (suc k) (advance p s).1
    pub balance_first :
        (k : ℕ) (s : S) (t : T)
        → k < bound
        → H k s
        → total g (first t s).2 + total f (points_of (first t s).0) + m (first t s).1 ≡ w t + m s
    pub balance_next :
        (k : ℕ) (s : S) (p : P)
        → k < bound
        → H k s
        → total g (advance p s).2 + total f (points_of (advance p s).0) + m (advance p s).1
          ≡ f p + m s

  picked :
      (f : P → ℕ) (i : ℕ) (xs : List P)
      → (pick i xs ≡ none)
        ⊎ ((a : P) × (rest : List P) × (pick i xs ≡ some (a, rest))
            × (total f xs ≡ f a + total f rest))
  picked f i [] = inl refl
  picked f zero (x ∷ xs) = inr (x, xs, refl, refl)
  picked f (suc i) (x ∷ xs) = elim (picked f i xs) [
    | inl e ↦ inl (rw e refl)
    | inr (a, rest, e, t) ↦ inr (a, x ∷ rest, rw e refl, omega (arith, t))
  ]

  total-resume :
      (f : P → ℕ) (rest : List P) (x : Outcome (List P) × S × List E)
      → total f (resume rest x).1.points ≡ total f rest + total f (points_of x.0)
  total-resume f rest (ok ps, s, es) = total-append f rest ps
  total-resume f rest (err e, s, es) = omega arith
  total-resume f rest (panic, s, es) = omega arith

  shared-resume :
      (rest : List P) (x : Outcome (List P) × S × List E)
      → ((resume rest x).1.shared ≡ x.1) × ((resume rest x).2 ≡ x.2)
  shared-resume rest (ok ps, s, es) = (refl, refl)
  shared-resume rest (err e, s, es) = (refl, refl)
  shared-resume rest (panic, s, es) = (refl, refl)

  module _ {ℓ} {bound : ℕ} {H : ℕ → S → Type ℓ} {m : S → ℕ} {f : P → ℕ} {g : E → ℕ} {w : T → ℕ}
      (b : Balance bound H m f g w) where
    -- One step keeps the balance.
    record Even (k : ℕ) (c d : Running S P) (es : List E) (more : ℕ) : Type ℓ where
      holds : H k d.shared
      even : total g es + total f d.points + m d.shared ≡ more + total f c.points + m c.shared

    step-Even :
        (k : ℕ) (c : Running S P) (x : Step T)
        → k < bound
        → H k c.shared
        → Even
            (suc k)
            c
            (run_step first advance x c).1
            (run_step first advance x c).2
            (entered w (x ∷ []))
    unfolding run_step
    step-Even k c (enter t) small h =
        let o = first t c.shared in
        let (same, out) = shared-resume c.points o in
        record {
          holds = rw same (b.enters k c.shared t small h);
          even =
              rw (same, out)
                (omega (arith, total-resume f c.points o, b.balance_first k c.shared t small h));
        }
    step-Even k c (go_on i) small h = elim (picked f i c.points) [
      | inl e ↦ rw e (record { holds = b.waits k c.shared h; even = omega arith })
      | inr (a, rest, e, t) ↦
          let o = advance a c.shared in
          let (same, out) = shared-resume rest o in
          rw e (record {
            holds = rw same (b.advances k c.shared a small h);
            even =
                rw (same, out)
                  (omega (arith, t, total-resume f rest o, b.balance_next k c.shared a small h));
          })
    ]

    entered-step :
        (x : Step T) (ks : List (Step T)) → entered w (x ∷ ks) ≡ entered w (x ∷ []) + entered w ks
    entered-step (enter t) ks = omega arith
    entered-step (go_on i) ks = omega arith

    pub Reaches-balance :
        {c d : Running S P} {ks : List (Step T)} {es : List E}
        → Reaches (run_step first advance) c d ks es
        → length ks ≤ bound
        → H 0 c.shared
        → H (length ks) d.shared
          × (total g es + total f d.points + m d.shared
              ≡ entered w ks + total f c.points + m c.shared)
    Reaches-balance start small h = (h, omega arith)
    Reaches-balance {c} (later {d} {evs = ks} {es} x r) small h =
        let so_far = Reaches-balance r (omega arith) h in
        let one = step-Even (length ks) d x (omega arith) so_far.0 in
        let out : List E = (run_step first advance x d).2 in
        (one.holds, omega (arith, so_far.1, one.even, total-append g es out, entered-step x ks))
