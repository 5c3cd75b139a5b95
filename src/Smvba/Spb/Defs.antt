-- ===== src/Smvba/Spb/Defs.antt =====
-- core/smvba/consensus/spb.go. Each of the two goroutine bodies runs as a whole here, with no
-- other one in between; Spb/Steps cuts them where they touch what they share. A pointer to
-- the core gives the node's name, committee and keys.
use bft_mvba.Methods.{Identity}
use bft_mvba.Base.{
  ℕ, Bool, true, false, not, List, [], ◌∷◌, ◌++◌, Option, none, some, Outcome, ok, panic,
  if◌then◌else◌, ◌==◌, Int8, Int64, inc, put,
}
use bft_mvba.Committee.{NodeId, hight_threshold}
use bft_mvba.Crypto.{Digest}
use bft_mvba.Smvba.Messages.{Block, block_hash, SpbProposal, SpbVote, spb_one_phase, spb_two_phase}
use bft_mvba.Smvba.Signing.{Messgae, new_spb_vote, new_spb_proposal, new_finish}
use bft_mvba.Smvba.Effects.{Effect, send, loopback, go_proposal, go_vote, tell_all}

pub record Spb : Type 0 where
  pub proposer : NodeId
  pub epoch : Int64
  pub round : Int64
  pub block_hash : Option Digest
  pub votes : Int8 → ℕ
  pub unhandle_vote : List SpbVote
  pub unhandle_proposal : List SpbProposal
  pub lock_flag : Bool

unfoldable pub new_spb : Int64 → Int64 → NodeId → Spb
new_spb epoch round proposer = record {
  proposer = proposer;
  epoch = epoch;
  round = round;
  block_hash = none;
  votes = λ _. 0;
  unhandle_vote = [];
  unhandle_proposal = [];
  lock_flag = false;
}

-- A vote goes to the proposer, through the own channel if that is the node itself.
abbrev pub reply : Identity → Spb → SpbVote → Effect
reply n s vote =
    if not (n.name == s.proposer)
    then send n.name s.proposer (Messgae.spb_vote vote)
    else loopback (Messgae.spb_vote vote)

-- `go s.processProposal(proposal)` and `go s.processVote(vote)` on what was put aside.
abbrev pub go_proposals : Spb → List SpbProposal → List Effect
go_proposals s [] = []
go_proposals s (p ∷ ps) = go_proposal s.epoch s.round s.proposer p ∷ go_proposals s ps

abbrev pub go_votes : Spb → List SpbVote → List Effect
go_votes s [] = []
go_votes s (v ∷ vs) = go_vote s.epoch s.round s.proposer v ∷ go_votes s vs

-- The first phase, on an instance that has no block yet.
unfoldable pub accept_block : Identity → Spb → SpbProposal → Block → Spb × List Effect
accept_block n s p b =
    let d = block_hash n.sig_service b in
    let vote = new_spb_vote n.sig_service n.name p.author d s.epoch s.round p.phase in
    (
      record s { block_hash = some d; unhandle_vote = []; unhandle_proposal = [] },
      reply n s vote ∷ (go_proposals s s.unhandle_proposal ++ go_votes s s.unhandle_vote),
    )

abbrev pub first_phase : Identity → Spb → SpbProposal → Option Block → Outcome (Spb × List Effect)
first_phase n s p none = panic
first_phase n s p (some b) =
    if not (s.proposer == b.proposer) then ok (s, []) else ok (accept_block n s p b)

abbrev pub second_phase : Identity → Spb → SpbProposal → Spb × List Effect
second_phase n s p =
    let vote = new_spb_vote n.sig_service n.name p.author 0 s.epoch s.round p.phase in
    (record s { lock_flag = true }, reply n s vote ∷ [])

unfoldable pub process_proposal : Identity → Spb → SpbProposal → Outcome (Spb × List Effect)
unfolding accept_block
process_proposal n s p =
    if p.phase == spb_one_phase
    then elim s.block_hash [ some _ ↦ ok (s, []) | none ↦ first_phase n s p p.b ]
    else if p.phase == spb_two_phase
    then elim s.block_hash [
      | none ↦ ok (record s { unhandle_proposal = s.unhandle_proposal ++ p ∷ [] }, [])
      | some _ ↦ ok (second_phase n s p)
    ]
    else ok (s, [])

-- What the vote that completes a quorum sets off.
abbrev pub on_quorum : Identity → Spb → Digest → Int8 → List Effect
on_quorum n s d phase =
    if phase == spb_one_phase
    then tell_all n (
        Messgae.spb_proposal
          (new_spb_proposal n.sig_service n.name none s.epoch s.round spb_two_phase))
    else if phase == spb_two_phase
    then tell_all n (Messgae.finish (new_finish n.sig_service n.name d s.epoch s.round))
    else []

-- A vote once the block is known.
abbrev pub count_vote : Identity → Spb → Digest → SpbVote → Spb × List Effect
count_vote n s d v =
    let num = inc (s.votes v.phase) in
    (
      record s { votes = put s.votes v.phase num },
      if num == hight_threshold n.committee then on_quorum n s d v.phase else [],
    )

unfoldable pub process_vote : Identity → Spb → SpbVote → Spb × List Effect
process_vote n s v = elim s.block_hash [
  | none ↦ (record s { unhandle_vote = s.unhandle_vote ++ v ∷ [] }, [])
  | some d ↦ count_vote n s d v
]

unfoldable pub is_lock : Spb → Bool
is_lock s = s.lock_flag

unfoldable pub get_block_hash : Spb → Option Digest
get_block_hash s = s.block_hash
