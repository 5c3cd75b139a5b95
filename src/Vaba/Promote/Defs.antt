-- ===== src/Vaba/Promote/Defs.antt =====
-- core/vaba/consensus/promote.go. Each of the two goroutine bodies runs as one step here. A pointer to
-- the core gives the node's name, committee and keys; whether the core skips the epoch is an argument.
use bft_mvba.Methods.{Identity}
use bft_mvba.Base.{
  ◌+◌, ◌%◌, ◌^◌, Bool, true, false, not, ltb, List, [], ◌∷◌, ◌++◌, Option, none, some, Outcome, ok,
  panic, if◌then◌else◌, ◌==◌, Int8, Int64, inc, put,
}
use bft_mvba.Committee.{NodeId, hight_threshold}
use bft_mvba.Crypto.{Digest}
use bft_mvba.Vaba.Messages.{
  Block, block_hash, Proposal, Vote, Messgae, new_vote, new_proposal, new_done, phase_one_falg,
  phase_two_falg, phase_three_falg, phase_four_falg,
}
use bft_mvba.Vaba.Effects.{Effect, send, loopback, nil_vote, go_proposal, go_vote, tell_all}

-- `a < b` and `a + 1` on 8-bit patterns in two's complement.
unfoldable pub slt8 : Int8 → Int8 → Bool
slt8 a b = ltb ((a + 2 ^ 7) % 2 ^ 8) ((b + 2 ^ 7) % 2 ^ 8)

unfoldable pub inc8 : Int8 → Int8
inc8 a = (a + 1) % 2 ^ 8

pub record Promote : Type 0 where
  pub epoch : Int64
  pub proposer : NodeId
  pub block_hash : Option Digest
  pub unhandle_proposal : List Proposal
  pub unhandle_vote : List Vote
  pub vote_cnts : Int8 → Int64
  pub key_flag : Bool
  pub lock_flag : Bool
  pub commit_flag : Bool

unfoldable pub new_promote : Int64 → NodeId → Promote
new_promote epoch proposer = record {
  epoch = epoch;
  proposer = proposer;
  block_hash = none;
  unhandle_proposal = [];
  unhandle_vote = [];
  vote_cnts = λ _. 0;
  key_flag = false;
  lock_flag = false;
  commit_flag = false;
}

-- The goroutines for the messages that were put aside; they stay in their lists.
abbrev pub go_proposals : Promote → List Proposal → List Effect
go_proposals s [] = []
go_proposals s (p ∷ ps) = go_proposal s.epoch s.proposer p ∷ go_proposals s ps

abbrev pub go_votes : Promote → List Vote → List Effect
go_votes s [] = []
go_votes s (v ∷ vs) = go_vote s.epoch s.proposer v ∷ go_votes s vs

-- A vote goes to the proposer, through the own channel if that is the node itself.
unfoldable pub reply : Identity → Promote → Digest → Int8 → Effect
reply n s d phase =
    let v = new_vote n.sig_service n.name s.proposer d s.epoch phase in
    if not (n.name == s.proposer)
    then send n.name s.proposer (Messgae.vote v)
    else loopback (Messgae.vote v)

-- `proposal.B.Hash()` panics on a nil block.
unfoldable pub hold_block : Identity → Promote → Option Block → Outcome (Promote × List Effect)
hold_block n s none = panic
hold_block n s (some b) =
    let d = block_hash n.sig_service b in
    ok (
      record s { block_hash = some d },
      go_proposals s s.unhandle_proposal
          ++ (go_votes s s.unhandle_vote ++ reply n s d phase_one_falg ∷ []),
    )

-- The phases after the first, once the block is known. A phase that no case has gives no vote, and
-- that nil is sent the way of a vote.
unfoldable pub later_phase : Identity → Promote → Digest → Int8 → Promote × List Effect
later_phase n s d phase =
    if phase == phase_two_falg
    then (record s { key_flag = true }, reply n s d phase_two_falg ∷ [])
    else if phase == phase_three_falg
    then (record s { lock_flag = true }, reply n s d phase_three_falg ∷ [])
    else if phase == phase_four_falg
    then (record s { commit_flag = true }, reply n s d phase_four_falg ∷ [])
    else (s, nil_vote s.proposer ∷ [])

unfoldable pub process_proposal : Identity → Promote → Proposal → Outcome (Promote × List Effect)
unfolding hold_block later_phase
process_proposal n s p =
    if p.phase == phase_one_falg
    then (if not (p.author == s.proposer) then ok (s, []) else hold_block n s p.b)
    else elim s.block_hash [
      | none ↦ ok (record s { unhandle_proposal = s.unhandle_proposal ++ p ∷ [] }, [])
      | some d ↦ ok (later_phase n s d p.phase)
    ]

-- What the vote that completes a quorum sets off: the next phase, or the end of the promotion.
unfoldable pub on_quorum : Identity → Promote → Bool → Int8 → List Effect
unfolding slt8 inc8
on_quorum n s skipped phase =
    if slt8 phase phase_four_falg
    then tell_all s.proposer
        (Messgae.proposal (new_proposal n.sig_service s.proposer s.epoch (inc8 phase) none))
    else if not skipped
    then tell_all s.proposer (Messgae.done (new_done n.sig_service s.proposer s.epoch))
    else []

-- A vote for the block that the instance holds.
abbrev pub count_vote : Identity → Promote → Bool → Vote → Promote × List Effect
count_vote n s skipped v =
    let nums = inc (s.vote_cnts v.phase) in
    (
      record s { vote_cnts = put s.vote_cnts v.phase nums },
      if nums == hight_threshold n.committee then on_quorum n s skipped v.phase else [],
    )

unfoldable pub process_vote : Identity → Promote → Bool → Vote → Promote × List Effect
unfolding on_quorum
process_vote n s skipped v = elim s.block_hash [
  | none ↦ (record s { unhandle_vote = s.unhandle_vote ++ v ∷ [] }, [])
  | some d ↦ if d == v.block_hash then count_vote n s skipped v else (s, [])
]

unfoldable pub get_block_hash : Promote → Option Digest
get_block_hash s = s.block_hash

unfoldable pub is_key : Promote → Bool
is_key s = s.key_flag

unfoldable pub is_lock : Promote → Bool
is_lock s = s.lock_flag

unfoldable pub is_commit : Promote → Bool
is_commit s = s.commit_flag
