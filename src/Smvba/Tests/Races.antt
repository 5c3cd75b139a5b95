-- ===== src/Smvba/Tests/Races.antt =====
-- The goroutines of one instance of core/smvba/consensus/spb.go, in between each other.
use bft_mvba.Base.{◌≡◌, ◌≢◌, ◌+◌, refl, List, [], ◌∷◌, none, some}
use bft_mvba.Methods.{run_all, run_all-Reaches}
use bft_mvba.Threads.{Running, Step, enter, go_on, run_step}
use bft_mvba.Smvba.Messages.{block_hash, SpbProposal, spb_one_phase}
use bft_mvba.Smvba.Signing.{new_spb_proposal}
use bft_mvba.Smvba.Spb.{Spb, new_spb, get_block_hash}
use bft_mvba.Smvba.Spb.Runs.{Task, proposal}
use bft_mvba.Smvba.Spb.Steps.{Point, storing, look, advance}
use bft_mvba.Smvba.Spb.Races.{
  first_votes, past_look, late_proposals_not_voted, overlap, vote_for, two_blocks_voted,
}
use bft_mvba.Smvba.Spb.Alone.{no_others}
use bft_mvba.Fixtures.{service, node}
use bft_mvba.Smvba.Tests.Fixtures.{block_of}

abbrev one : SpbProposal
one = new_spb_proposal service 1 (some (block_of 1 0)) 0 0 spb_one_phase

abbrev other : SpbProposal
other = new_spb_proposal service 1 (some (block_of 1 7)) 0 0 spb_one_phase

abbrev fresh : Spb
fresh = new_spb 0 0 1

-- An instance with a block, and one goroutine that looked before it had one.
abbrev raced : Running Spb Point
raced = record {
  shared = record fresh { block_hash = some 9 };
  points = storing one (block_of 1 0) ∷ [];
}

-- A second proposal enters, and the first goroutine goes on to its vote.
abbrev steps : List (Step Task)
steps = go_on 0 ∷ go_on 0 ∷ enter (proposal other) ∷ []

late_proposals_not_voted_example :
    (get_block_hash (run_all (run_step look (advance node)) raced steps).0.shared ≢ none)
    × (first_votes (run_all (run_step look (advance node)) raced steps).1
          + past_look (run_all (run_step look (advance node)) raced steps).0.points
        ≡ past_look raced.points)
late_proposals_not_voted_example =
    late_proposals_not_voted node (run_all-Reaches (run_step look (advance node)) raced steps)
      (unfold get_block_hash in λ e. cc)

two_blocks_voted_example :
    ((run_all (run_step look (advance node)) (no_others fresh) (overlap one other)).1
      ≡ vote_for node fresh one (block_of 1 0) ∷ vote_for node fresh other (block_of 1 7) ∷ [])
    × ((run_all (run_step look (advance node)) (no_others fresh) (overlap one other)).0.shared
        ≡ record fresh { block_hash = some (block_hash service (block_of 1 7)) })
two_blocks_voted_example =
    unfold new_spb new_spb_proposal in
    two_blocks_voted node fresh one other (block_of 1 0) (block_of 1 7) refl refl refl refl refl
      refl refl
