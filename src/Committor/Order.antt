-- ===== src/Committor/Order.antt =====
-- What core/smvba/consensus/commitor.go promises: every epoch once, in order, and none held back.
use mathlib.Core.Path.{ap₂}
use native.Mathlib.Decide.{dec_lt}
use bft_mvba.Base.{
  ℕ, zero, suc, ◌+◌, ◌-◌, ◌^◌, ◌≤◌, ◌<◌, ◌≡◌, ◌≢◌, refl, inl, inr, ◌⊎◌, true, List, [], ◌∷◌, length,
  map, has, none, some, Option-cases, Bool-cases, Int64, slt, slt-ltb, inc, inc-small, lookup,
  insert, remove, lookup-insert, lookup-remove, length-remove, length-insert, arith,
}
use bft_mvba.Committor.Defs.{Committor, drain, commit}

-- `n` numbers from `i` on.
abbrev pub count_up : ℕ → ℕ → List ℕ
count_up i zero = []
count_up i (suc n) = i ∷ count_up (suc i) n

module _ {B : Type 0} (epoch : B → Int64) where
  -- After `n` calls: blocks stand under their own epochs, and no more came in than calls were made.
  pub record IsKeyed (n : ℕ) (c : Committor B) : Type 0 where
    pub own : (k : Int64) (b : B) → lookup k c.blocks ≡ some b → epoch b ≡ k
    pub room : c.index + length c.blocks ≤ n
    pub small : n < 2 ^ 62

  -- What the loop leaves: the epochs that went out follow one another from the old index, the new
  -- index is the first epoch that is missing, and the other entries are as they were.
  record Drained (n : ℕ) (c : Committor B) (r : List B × Committor B) : Type 0 where
    in_order : map epoch r.0 ≡ count_up c.index (length r.0)
    moved : r.1.index ≡ c.index + length r.0
    ended : lookup r.1.index r.1.blocks ≡ none
    rest : (k : Int64) → r.1.index ≤ k → lookup k r.1.blocks ≡ lookup k c.blocks
    pub keyed : IsKeyed n r.1

  abbrev next_of : Committor B → Committor B
  next_of c = record { index = inc c.index; blocks = remove c.index c.blocks }

  next-IsKeyed :
      (n : ℕ) (c : Committor B) (b : B)
      → lookup c.index c.blocks ≡ some b
      → IsKeyed n c
      → IsKeyed n (next_of c)
  next-IsKeyed n c b found k = record {
    own = λ j x h. k.own j x (ground (arith, lookup-remove c.index j c.blocks));
    room = omega (
      arith,
      inc-small c.index (omega (arith, k.room, k.small)),
      length-remove c.index c.blocks b found,
      k.room,
      k.small,
    );
    small = k.small;
  }

  Drained-step :
      (n : ℕ) (c : Committor B) (b : B) (r : List B × Committor B)
      → lookup c.index c.blocks ≡ some b
      → IsKeyed n c
      → Drained n (next_of c) r
      → Drained n c (b ∷ r.0, r.1)
  Drained-step n c b r found k d = record {
    in_order =
        let up : (inc c.index ≡ suc c.index) =
          omega (arith, inc-small c.index (omega (arith, k.room, k.small))) in
        ap₂ ◌∷◌ (k.own c.index b found) (rw up at d.in_order);
    moved = omega (arith, d.moved, inc-small c.index (omega (arith, k.room, k.small)));
    ended = d.ended;
    rest = λ j le. ground (
      arith,
      d.rest j le,
      d.moved,
      lookup-remove c.index j c.blocks,
      inc-small c.index (omega (arith, k.room, k.small)),
    );
    keyed = d.keyed;
  }

  drain-Drained :
      (n fuel : ℕ) (c : Committor B)
      → length c.blocks ≤ fuel
      → IsKeyed n c
      → Drained n c (drain fuel c)
  unfolding drain
  drain-Drained n zero c h k = record {
    in_order = refl;
    moved = omega arith;
    ended = no_entry c.blocks h;
    rest = λ j _. refl;
    keyed = k;
  }
    where
      no_entry : (l : List (Int64 × B)) → length l ≤ 0 → lookup c.index l ≡ none
      no_entry [] e = unfold lookup in refl
      no_entry (x ∷ l) e = absurd (omega arith)
  drain-Drained n (suc fuel) c h k = elim (Option-cases (lookup c.index c.blocks)) [
    | inl missing ↦
        rw (missing, drain)
          (record {
            in_order = refl;
            moved = omega arith;
            ended = missing;
            rest = λ j _. refl;
            keyed = k;
          })
    | inr (b, found) ↦
        rw (found, drain)
          (Drained-step n c b (drain fuel (next_of c)) found k (
            drain-Drained n fuel (next_of c) (omega (arith, length-remove c.index c.blocks b found))
              (next-IsKeyed n c b found k)))
  ]

  -- What `Commit` keeps over its calls, after the blocks `past` were given to it.
  pub record Inv (past : List B) (c : Committor B) : Type 0 where
    pub keyed : IsKeyed (length past) c
    pub waiting : lookup c.index c.blocks ≡ none
    pub seen :
        (e : Int64)
        → e < 2 ^ 62
        → has (map epoch past) e ≡ true
        → (e < c.index) ⊎ (lookup e c.blocks ≢ none)

  -- One call: the epochs that go out follow the old index.
  pub record Committed (past : List B) (c : Committor B) (r : List B × Committor B) : Type 0 where
    pub order : map epoch r.0 ≡ count_up c.index (length r.0)
    pub index : r.1.index ≡ c.index + length r.0
    pub inv : Inv past r.1

  with_block : Committor B → B → Committor B
  with_block c b = record c { blocks = insert (epoch b) b c.blocks }

  late-Committed :
      (past : List B) (c : Committor B) (b : B)
      → length past < 2 ^ 62 - 1
      → Inv past c
      → slt (epoch b) c.index ≡ true
      → Committed (b ∷ past) c ([], c)
  late-Committed past c b small v late = record {
    order = refl;
    index = omega arith;
    inv = record {
      keyed = record { own = v.keyed.own; room = omega (arith, v.keyed.room); small = omega arith };
      waiting = v.waiting;
      seen = λ e lt h.
          ground (arith, v.seen e lt, slt-ltb (epoch b) c.index, v.keyed.room, v.keyed.small);
    };
  }

  with_block-IsKeyed :
      (past : List B) (c : Committor B) (b : B)
      → length past < 2 ^ 62 - 1
      → IsKeyed (length past) c
      → IsKeyed (length (b ∷ past)) (with_block c b)
  unfolding with_block
  with_block-IsKeyed past c b small k = record {
    own = λ j x h. ground (arith, k.own j x, lookup-insert c.blocks (epoch b) b j);
    room = omega (arith, k.room, length-insert (epoch b) b c.blocks);
    small = omega arith;
  }

  kept_or_gone :
      (past : List B) (c : Committor B) (b : B) (r : List B × Committor B)
      → Inv past c
      → Drained (length (b ∷ past)) (with_block c b) r
      → (e : Int64) → e < 2 ^ 62
      → has (map epoch (b ∷ past)) e ≡ true
      → (e < r.1.index) ⊎ (lookup e r.1.blocks ≢ none)
  unfolding with_block
  kept_or_gone past c b r v d e lt h = elim (dec_lt e r.1.index) [
    | yes gone ↦ inl gone
    | no later ↦ inr (λ z.
        ground (
          arith,
          v.seen e lt,
          d.rest e (omega arith),
          d.moved,
          lookup-insert c.blocks (epoch b) b e,
        ))
  ]

  pub commit-Committed :
      (past : List B) (c : Committor B) (b : B)
      → length past < 2 ^ 62 - 1
      → Inv past c
      → Committed (b ∷ past) c (commit epoch c b)
  unfolding commit with_block
  commit-Committed past c b small v = elim (Bool-cases (slt (epoch b) c.index)) [
    | inl late ↦ rw late (late-Committed past c b small v late)
    | inr timely ↦
        let d =
          drain-Drained (length (b ∷ past)) (length (with_block c b).blocks) (with_block c b)
            (omega arith) (with_block-IsKeyed past c b small v.keyed) in
        rw timely (record {
          order = d.in_order;
          index = d.moved;
          inv = record { keyed = d.keyed; waiting = d.ended; seen = kept_or_gone past c b _ v d };
        })
  ]
