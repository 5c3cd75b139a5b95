-- ===== src/Vaba/Promote/NilBlocks.antt =====
-- core/vaba/consensus/promote.go: the phase is a signed number that the votes bring, and the phase
-- after -1 is the first one, whose proposal has to have a block.
use bft_mvba.Methods.{Identity}
use bft_mvba.Base.{
  ◌+◌, ◌^◌, ◌<◌, Bool, List, [], ◌∷◌, none, some, panic, ◌≡◌, Int8, arith, if◌then◌else◌, length,
  All, ltb, leb, ◌&&◌, inc,
}
use bft_mvba.Crypto.{Digest}
use bft_mvba.Committee.{hight_threshold}
use bft_mvba.Vaba.Messages.{Proposal, Vote, Messgae, new_proposal, phase_one_falg}
use bft_mvba.Vaba.Effects.{tell_all}
use bft_mvba.Vaba.Promote.Defs.{Promote, process_proposal, process_vote, on_quorum, slt8, inc8}
use bft_mvba.Vaba.Promote.Runs.{run_votes}

-- The 8-bit pattern of -1.
abbrev pub minus_one : Int8
minus_one = 255

abbrev pub IsStray : Digest → Vote → Type 0
IsStray d v = (v.phase ≡ minus_one) × (v.block_hash ≡ d)

-- A proposal of the first phase that has no block.
abbrev pub bare : Identity → Promote → Proposal
bare n s = new_proposal n.sig_service s.proposer s.epoch phase_one_falg none

run_votes-stray :
    (n : Identity) (s : Promote) (d : Digest) (skipped : Bool) (vs : List Vote)
    → s.block_hash ≡ some d
    → All (IsStray d) vs
    → s.vote_cnts minus_one + length vs < 2 ^ 62
    → (run_votes n s skipped vs).1 ≡ (
        if ltb (s.vote_cnts minus_one) (hight_threshold n.committee)
          && leb (hight_threshold n.committee) (s.vote_cnts minus_one + length vs)
        then tell_all s.proposer (Messgae.proposal (bare n s))
        else [])
unfolding run_votes process_vote on_quorum inc slt8 inc8
run_votes-stray n s d skipped [] h stray small = ground arith
run_votes-stray n s d skipped (v ∷ vs) h stray small =
    ground (arith, run_votes-stray n (process_vote n s skipped v).0 d skipped vs)

-- On a promotion with a block and no votes for the phase -1 yet, any row of `HightThreshold`
-- votes on that block for the phase -1, fewer than 2 ^ 62, whoever their authors are, has one
-- proposal of the first phase without a block sent to everybody and to the node itself, and
-- nothing else; and a promotion of the same proposer panics on that proposal.
pub stray_votes_crash :
    (n m : Identity) (s t : Promote) (d : Digest) (skipped : Bool) (vs : List Vote)
    → s.block_hash ≡ some d
    → s.vote_cnts minus_one ≡ 0
    → All (IsStray d) vs
    → length vs ≡ hight_threshold n.committee
    → length vs < 2 ^ 62
    → t.proposer ≡ s.proposer
    → ((run_votes n s skipped vs).1 ≡ tell_all s.proposer (Messgae.proposal (bare n s)))
      × (process_proposal m t (bare n s) ≡ panic)
unfolding hight_threshold process_proposal new_proposal
stray_votes_crash n m s t d skipped vs h zero_yet stray quorum small same =
    (ground (arith, run_votes-stray n s d skipped vs), ground arith)
