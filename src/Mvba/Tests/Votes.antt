-- ===== src/Mvba/Tests/Votes.antt =====
-- The goroutines of one broadcast of core/mvba/consensus/cbc.go, in between each other.
use bft_mvba.Base.{◌≡◌, refl, List, [], ◌∷◌, some}
use bft_mvba.Methods.{run_all}
use bft_mvba.Threads.{Running, Step, enter, go_on, run_step}
use bft_mvba.Mvba.Messages.{Block, new_block, block_hash, Proposal, Ready, new_ready, unsigned}
use bft_mvba.Mvba.Effects.{Effect, CbcTask, data_cbc}
use bft_mvba.Mvba.Cbc.{Cbc, new_cbc}
use bft_mvba.Mvba.Cbc.Steps.{Point, look, advance}
use bft_mvba.Mvba.Cbc.Accounts.{votes_restarted, overtaken, early_vote_lost}
use bft_mvba.Fixtures.{service, node}

abbrev block : Block
block = new_block 0 (record { id = 0; txs = [] }) 0

abbrev with_block : Proposal
with_block = record { author = 0; b = some block; epoch = 0; signature = unsigned }

abbrev early : Ready
early = new_ready service 1 0 0 data_cbc

abbrev empty : Running Cbc Point
empty = record { shared = new_cbc 0 0; points = [] }

-- A vote is put aside, a proposal takes it out, another vote is counted and a third is on the way.
abbrev steps : List (Step CbcTask)
steps =
    enter (CbcTask.ready early)
    ∷ go_on 1
    ∷ enter (CbcTask.ready early)
    ∷ go_on 0
    ∷ enter (CbcTask.proposal with_block)
    ∷ go_on 0
    ∷ enter (CbcTask.ready early)
    ∷ []

abbrev after : Running Cbc Point × List Effect
after = run_all (run_step (look node) (advance node data_cbc)) empty steps

abbrev lost : Running Cbc Point × List Effect
lost = run_all (run_step (look node) (advance node data_cbc)) empty (overtaken early with_block)

early_vote_lost_example :
    (lost.0.points ≡ [])
    × (lost.0.shared.block_hash ≡ some (block_hash service block))
    × (lost.0.shared.unhandle_ready ≡ early ∷ [])
    × (lost.0.shared.ready_cnts ≡ 0)
    × (votes_restarted lost.1 ≡ 0)
early_vote_lost_example =
    unfold new_cbc new_ready in
    early_vote_lost node data_cbc (new_cbc 0 0) early with_block block refl refl refl refl
