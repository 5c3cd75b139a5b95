-- ===== src/Committor/Runs.antt =====
-- The calls of `Commit` in core/smvba/consensus/commitor.go over a whole run.
use mathlib.Core.Path.{ap₂}
use mathlib.Core.List.{map-append, append_assoc}
use native.Mathlib.Decide.{dec_lt}
use bft_mvba.Base.{
  none, ℕ, zero, suc, ◌+◌, ◌-◌, ◌^◌, ◌≤◌, ◌<◌, ◌≡◌, refl, sym, ◌∙◌, ap, inl, ◌⊎◌, true, List, [],
  ◌∷◌, ◌++◌, length, length-append, map, has, Int64, lookup, arith,
}
use bft_mvba.Committor.Defs.{Committor, new_committor, commit}
use bft_mvba.Committor.Order.{count_up, Inv, Committed, commit-Committed}

count_up-append : (i m n : ℕ) → count_up i m ++ count_up (i + m) n ≡ count_up i (m + n)
count_up-append i zero n = ground arith
count_up-append i (suc m) n =
    let shift : (i + suc m ≡ suc i + m) = omega arith in
    let grow : (suc m + n ≡ suc (m + n)) = omega arith in
    rw (shift, grow) (ap (◌∷◌ i) (count_up-append (suc i) m n))

module _ {B : Type 0} (epoch : B → Int64) where
  -- The blocks that go out over a list of calls, and the state after them.
  unfoldable pub run_commits : Committor B → List B → List B × Committor B
  run_commits c [] = ([], c)
  run_commits c (b ∷ bs) =
      let (out, c') = commit epoch c b in let (rest, c'') = run_commits c' bs in (out ++ rest, c'')

  pub run_commits-append :
      (k : Committor B) (bs cs : List B)
      → run_commits k (bs ++ cs) ≡ (
        (run_commits k bs).0 ++ (run_commits (run_commits k bs).1 cs).0,
        (run_commits (run_commits k bs).1 cs).1,
      )
  unfolding run_commits
  run_commits-append k [] cs = refl
  run_commits-append k (b ∷ bs) cs =
      let c' : Committor B = (commit epoch k b).1 in
      rw
        (
          run_commits-append c' bs cs,
          append_assoc (commit epoch k b).0 (run_commits c' bs).0
              (run_commits (run_commits c' bs).1 cs).0,
        )
        refl

  abbrev rev_onto : List B → List B → List B
  rev_onto [] past = past
  rev_onto (b ∷ bs) past = rev_onto bs (b ∷ past)

  has-rev_onto :
      (bs past : List B) (e : ℕ)
      → (has (map epoch bs) e ≡ true) ⊎ (has (map epoch past) e ≡ true)
      → has (map epoch (rev_onto bs past)) e ≡ true
  has-rev_onto [] past e h = ground arith
  has-rev_onto (b ∷ bs) past e h = has-rev_onto bs (b ∷ past) e (ground arith)

  run-Committed :
      (past bs : List B) (c : Committor B)
      → length past + length bs < 2 ^ 62 - 1
      → Inv epoch past c
      → Committed epoch (rev_onto bs past) c (run_commits c bs)
  unfolding run_commits
  run-Committed past [] c small v = record { order = refl; index = omega arith; inv = v }
  run-Committed past (b ∷ bs) c small v =
      let one = commit-Committed epoch past c b (omega arith) v in
      let c' : Committor B = (commit epoch c b).1 in
      let out : List B = (commit epoch c b).0 in
      let rest = run-Committed (b ∷ past) bs c' (omega arith) one.inv in
      record {
        order =
            map-append _ _ _
            ∙ ap₂ ◌++◌ one.order (rest.order ∙ rw one.index)
            ∙ count_up-append c.index (length out) (length (run_commits c' bs).0)
            ∙ ap (count_up c.index) (sym (length-append out (run_commits c' bs).0));
        index = omega (arith, one.index, rest.index, length-append out (run_commits c' bs).0);
        inv = rest.inv;
      }

  new-Inv : Inv epoch [] new_committor
  new-Inv = record {
    keyed = record { own = λ k b h. unfold lookup in cc; room = omega arith; small = omega arith };
    waiting = unfold lookup in refl;
    seen = λ e lt h. cc;
  }

  -- After any fewer than 2 ^ 62 - 1 calls of `Commit` on a new committor, its loop has ended for
  -- want of the next block and not for want of fuel: no block is held for the epoch at the index.
  pub commit_loop_ends :
      (bs : List B)
      → length bs < 2 ^ 62 - 1
      → lookup (run_commits new_committor bs).1.index (run_commits new_committor bs).1.blocks ≡ none
  commit_loop_ends bs small = (run-Committed [] bs new_committor (omega arith) new-Inv).inv.waiting

  -- From a new committor, over fewer than 2 ^ 62 - 1 calls of `Commit`, the blocks go out in the
  -- order of their epochs, from epoch 0 on, each once and none left out; the index is how many
  -- went out; and once every epoch below `n` has been given, in any order, all of those are out.
  pub commits_in_order :
      (bs : List B)
      → length bs < 2 ^ 62 - 1
      → (map epoch (run_commits new_committor bs).0
          ≡ count_up 0 (length (run_commits new_committor bs).0))
        × ((run_commits new_committor bs).1.index ≡ length (run_commits new_committor bs).0)
        × ((n : ℕ)
            → n ≤ 2 ^ 62
            → ((e : ℕ) → e < n → has (map epoch bs) e ≡ true)
            → n ≤ length (run_commits new_committor bs).0)
  commits_in_order bs small =
      let r = run-Committed [] bs new_committor (omega arith) new-Inv in
      (r.order, omega (arith, r.index), λ n le given. none_back n le given r)
    where
      none_back :
          (n : ℕ)
          → n ≤ 2 ^ 62
          → ((e : ℕ) → e < n → has (map epoch bs) e ≡ true)
          → Committed epoch (rev_onto bs []) new_committor (run_commits new_committor bs)
          → n ≤ length (run_commits new_committor bs).0
      none_back n le given r = elim (dec_lt (run_commits new_committor bs).1.index n) [
        | no up ↦ omega (arith, r.index)
        | yes short ↦
            let i : ℕ = (run_commits new_committor bs).1.index in
            ground (
              arith,
              r.inv.waiting,
              r.inv.seen i (omega arith) (has-rev_onto bs [] i (inl (given i short))),
            )
      ]
