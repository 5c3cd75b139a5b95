-- ===== src/Smvba/Signing/Kinds.antt =====
-- core/smvba/consensus/message.go: the eight kinds of messages, and what they have in common.
use bft_mvba.Base.{ℕ, Bool, Outcome}
use bft_mvba.Committee.{Committee}
use bft_mvba.Crypto.{SigService}
use bft_mvba.Smvba.Messages.{SpbProposal, SpbVote, Finish, Done, ElectShare, Prevote, FinVote, Halt}
use bft_mvba.Smvba.Signing.Broadcasts.{spb_proposal_verify, spb_vote_verify, finish_verify}
use bft_mvba.Smvba.Signing.Votes.{
  done_verify, elect_share_verify, prevote_verify, fin_vote_verify, halt_verify,
}

-- The messages of the protocol, as the receive channel carries them.
pub data Messgae : Type 0 where
  spb_proposal : SpbProposal → Messgae
  spb_vote : SpbVote → Messgae
  finish : Finish → Messgae
  done : Done → Messgae
  elect_share : ElectShare → Messgae
  prevote : Prevote → Messgae
  fin_vote : FinVote → Messgae
  halt : Halt → Messgae

unfoldable pub msg_type : Messgae → ℕ
msg_type (spb_proposal _) = 0
msg_type (spb_vote _) = 1
msg_type (finish _) = 2
msg_type (done _) = 3
msg_type (elect_share _) = 4
msg_type (prevote _) = 5
msg_type (fin_vote _) = 6
msg_type (halt _) = 7

-- `Verify` of the interface `Validator`, which every message has.
unfoldable pub verify_message : SigService → Committee → Messgae → Outcome Bool
unfolding spb_proposal_verify spb_vote_verify finish_verify done_verify elect_share_verify
    prevote_verify fin_vote_verify halt_verify
verify_message s c (spb_proposal m) = spb_proposal_verify s m c
verify_message s c (spb_vote m) = spb_vote_verify s m c
verify_message s c (finish m) = finish_verify s m c
verify_message s c (done m) = done_verify s m c
verify_message s c (elect_share m) = elect_share_verify s m c
verify_message s c (prevote m) = prevote_verify s m c
verify_message s c (fin_vote m) = fin_vote_verify s m c
verify_message s c (halt m) = halt_verify s m c
