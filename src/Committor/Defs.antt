-- ===== src/Committor/Defs.antt =====
-- core/smvba/consensus/commitor.go, over any type of blocks with an epoch. The goroutine behind the
-- commit channel writes a log line and signals each block that it gets, in the order of the channel.
use bft_mvba.Base.{
  ℕ, zero, suc, List, [], ◌∷◌, length, none, some, if◌then◌else◌, Int64, slt, inc, lookup, insert,
  remove,
}

pub record Committor (B : Type 0) : Type 0 where
  pub index : Int64
  pub blocks : List (Int64 × B)

module _ {B : Type 0} where
  abbrev pub new_committor : Committor B
  new_committor = record { index = 0; blocks = [] }

  -- The loop of `Commit`, with as much fuel as there are blocks; what goes into the channel, the
  -- first block first.
  unfoldable pub drain : ℕ → Committor B → List B × Committor B
  drain zero c = ([], c)
  drain (suc fuel) c = elim (lookup c.index c.blocks) [
    | none ↦ ([], c)
    | some b ↦
        let (bs, c') =
          drain fuel (record { index = inc c.index; blocks = remove c.index c.blocks }) in
        (b ∷ bs, c')
  ]

  unfoldable pub commit : (B → Int64) → Committor B → B → List B × Committor B
  unfolding drain
  commit epoch c b =
      if slt (epoch b) c.index
      then ([], c)
      else (let blocks = insert (epoch b) b c.blocks in
          drain (length blocks) (record c { blocks = blocks }))
