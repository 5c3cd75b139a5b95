-- ===== src/Mvba/Messages/Kinds.antt =====
-- core/mvba/consensus/message.go: the ten kinds of messages, and what they have in common.
use bft_mvba.Base.{ℕ, Bool, Outcome}
use bft_mvba.Committee.{Committee}
use bft_mvba.Crypto.{SigService}
use bft_mvba.Mvba.Messages.Blocks.{Proposal, proposal_verify}
use bft_mvba.Mvba.Messages.Broadcasts.{
  Commitment, Ready, Final, ElectShare, commitment_verify, ready_verify, final_verify,
  elect_share_verify,
}
use bft_mvba.Mvba.Messages.Agreements.{
  Vote, AbaVal, AbaMux, CoinShare, AbaHalt, vote_verify, aba_val_verify, aba_mux_verify,
  coin_share_verify, aba_halt_verify,
}

abbrev pub vote_type : ℕ
vote_type = 5

abbrev pub coin_share_type : ℕ
coin_share_type = 8

-- The messages of the protocol, as the receive channel carries them.
pub data Messgae : Type 0 where
  proposal : Proposal → Messgae
  commitment : Commitment → Messgae
  ready : Ready → Messgae
  final : Final → Messgae
  elect_share : ElectShare → Messgae
  vote : Vote → Messgae
  aba_val : AbaVal → Messgae
  aba_mux : AbaMux → Messgae
  coin_share : CoinShare → Messgae
  aba_halt : AbaHalt → Messgae

unfoldable pub msg_type : Messgae → ℕ
msg_type (proposal _) = 0
msg_type (commitment _) = 1
msg_type (ready _) = 2
msg_type (final _) = 3
msg_type (elect_share _) = 4
msg_type (vote _) = 5
msg_type (aba_val _) = 6
msg_type (aba_mux _) = 7
msg_type (coin_share _) = 8
msg_type (aba_halt _) = 9

-- `Verify` of the interface `Validator`, which every message has.
unfoldable pub verify_message : SigService → Committee → Messgae → Outcome Bool
unfolding proposal_verify commitment_verify ready_verify final_verify elect_share_verify vote_verify
    aba_val_verify aba_mux_verify coin_share_verify aba_halt_verify
verify_message s c (proposal m) = proposal_verify s m c
verify_message s c (commitment m) = commitment_verify s m c
verify_message s c (ready m) = ready_verify s m c
verify_message s c (final m) = final_verify s m c
verify_message s c (elect_share m) = elect_share_verify s m c
verify_message s c (vote m) = vote_verify s m c
verify_message s c (aba_val m) = aba_val_verify s m c
verify_message s c (aba_mux m) = aba_mux_verify s m c
verify_message s c (coin_share m) = coin_share_verify s m c
verify_message s c (aba_halt m) = aba_halt_verify s m c
