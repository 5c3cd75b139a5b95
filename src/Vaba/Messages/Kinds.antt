-- ===== src/Vaba/Messages/Kinds.antt =====
-- core/vaba/consensus/message.go: the eight kinds of messages, and what they have in common.
use bft_mvba.Base.{ℕ, Bool, Outcome}
use bft_mvba.Committee.{Committee}
use bft_mvba.Crypto.{SigService}
use bft_mvba.Vaba.Messages.Broadcasts.{
  Proposal, Vote, Done, SkipShare, Skip, proposal_verify, vote_verify, done_verify,
  skip_share_verify, skip_verify,
}
use bft_mvba.Vaba.Messages.Views.{
  ElectShare, ViewChange, Halt, elect_share_verify, view_change_verify, halt_verify,
}

pub data Messgae : Type 0 where
  proposal : Proposal → Messgae
  vote : Vote → Messgae
  done : Done → Messgae
  skip_share : SkipShare → Messgae
  skip : Skip → Messgae
  elect_share : ElectShare → Messgae
  view_change : ViewChange → Messgae
  halt : Halt → Messgae

unfoldable pub msg_type : Messgae → ℕ
msg_type (proposal _) = 0
msg_type (vote _) = 1
msg_type (done _) = 2
msg_type (skip_share _) = 3
msg_type (skip _) = 4
msg_type (elect_share _) = 5
msg_type (view_change _) = 6
msg_type (halt _) = 7

-- `Verify` of the interface `Validator`, which every message has.
unfoldable pub verify_message : SigService → Committee → Messgae → Outcome Bool
unfolding proposal_verify vote_verify done_verify skip_share_verify skip_verify elect_share_verify
    view_change_verify halt_verify
verify_message s c (proposal m) = proposal_verify s m c
verify_message s c (vote m) = vote_verify s m c
verify_message s c (done m) = done_verify s m c
verify_message s c (skip_share m) = skip_share_verify s m c
verify_message s c (skip m) = skip_verify s m c
verify_message s c (elect_share m) = elect_share_verify s m c
verify_message s c (view_change m) = view_change_verify s m c
verify_message s c (halt m) = halt_verify s m c
