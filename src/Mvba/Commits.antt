-- ===== src/Mvba/Commits.antt =====
-- core/mvba/consensus/commitor.go, over any type of blocks. Its loop is that of the other commitor, on
-- blocks that stand under the epoch they are given for.
use bft_mvba.Base.{
  List, [], ◌∷◌, ◌++◌, length, Option, none, some, if◌then◌else◌, Int64, slt, insert, lookup,
}
use bft_mvba.Committee.{NodeId, no_node}
use bft_mvba.Committor.{Committor, new_committor, drain}

pub record Commitor (B : Type 0) : Type 0 where
  pub commit_leaders : List (Int64 × NodeId)
  pub commit_blocks : Committor (Int64 × B)

module _ {B : Type 0} where
  abbrev pub epoch_of_entry : Int64 × B → Int64
  epoch_of_entry (e, b) = e

  abbrev pub new_commitor : Commitor B
  new_commitor = record { commit_leaders = []; commit_blocks = new_committor }

  unfoldable pub commit_leader : Commitor B → Int64 → NodeId
  unfolding lookup
  commit_leader c epoch = elim (lookup epoch c.commit_leaders) [ none ↦ no_node | some l ↦ l ]

  -- What follows on a block, or on a nil.
  abbrev pub with_leader :
      Commitor B → Int64 → List (Int64 × NodeId) → Option B → List (Int64 × B) × Commitor B
  with_leader c epoch leaders none = ([], record c { commit_leaders = leaders })
  with_leader c epoch leaders (some b) =
      let k = c.commit_blocks in
      let blocks = insert epoch (epoch, b) k.blocks in
      let (out, k') = drain (length blocks) (record k { blocks = blocks }) in
      (out, record { commit_leaders = leaders; commit_blocks = k' })

  unfoldable pub commit : Commitor B → Int64 → NodeId → Option B → List (Int64 × B) × Commitor B
  unfolding drain insert
  commit c epoch leader b =
      if slt epoch c.commit_blocks.index
      then ([], c)
      else with_leader c epoch (insert epoch leader c.commit_leaders) b

  -- What goes out over a list of calls, and the commitor after them.
  unfoldable pub run_calls :
      Commitor B → List (Int64 × NodeId × Option B) → List (Int64 × B) × Commitor B
  run_calls c [] = ([], c)
  run_calls c ((e, l, b) ∷ calls) =
      let (out, c') = commit c e l b in let (rest, c'') = run_calls c' calls in (out ++ rest, c'')

  -- The calls that bring a block.
  abbrev pub given_blocks : List (Int64 × NodeId × Option B) → List (Int64 × B)
  given_blocks [] = []
  given_blocks ((e, l, none) ∷ calls) = given_blocks calls
  given_blocks ((e, l, some b) ∷ calls) = (e, b) ∷ given_blocks calls
