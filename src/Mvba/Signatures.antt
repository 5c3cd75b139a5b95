-- ===== src/Mvba/Signatures.antt =====
-- core/mvba/consensus/message.go with core.go: what the signatures of the messages cover.
use bft_mvba.Base.{true, Option, some, ok, Int64, ◌≡◌, refl}
use bft_mvba.Committee.{NodeId, Committee}
use bft_mvba.Crypto.{SigService, share_verify}
use bft_mvba.Smvba.Signatures.{HasKeys, accepted}
use bft_mvba.Mvba.Messages.{
  Uint8, Slice, Block, Proposal, Commitment, Vote, AbaVal, AbaMux, AbaHalt, Messgae, verify_message,
  new_proposal, new_commitment, new_ready, new_final, new_elect_share, new_vote, new_aba_val,
  new_aba_mux, new_coin_share, new_aba_halt, proposal_verify, commitment_verify, ready_verify,
  final_verify, elect_share_verify, vote_verify, aba_val_verify, aba_mux_verify, coin_share_verify,
  aba_halt_verify, proposal_hash, commitment_hash, ready_hash, final_hash, elect_share_hash,
  vote_hash, aba_val_hash, aba_mux_hash, coin_share_hash, aba_halt_hash,
}

-- The messages of the nine kinds around an agreement that a node makes, its proposals of a block
-- included, are accepted by the check of every node with the same committee, if the committee lists
-- the key of the node.
pub mvba_messages_verify :
    (s : SigService) (c : Committee) (name : NodeId) (p l : NodeId) (b : Block) (sl : Option Slice)
    (e r i : Int64) (tag flag : Uint8)
    → HasKeys s c name
    → ((m : Proposal) × (new_proposal s name (some b) e ≡ ok m)
        × (verify_message s c (Messgae.proposal m) ≡ ok true))
      × (verify_message s c (Messgae.commitment (new_commitment s name sl e)) ≡ ok true)
      × (verify_message s c (Messgae.ready (new_ready s name p e tag)) ≡ ok true)
      × (verify_message s c (Messgae.final (new_final s name e tag)) ≡ ok true)
      × (verify_message s c (Messgae.elect_share (new_elect_share s name e)) ≡ ok true)
      × (verify_message s c (Messgae.vote (new_vote s name l e r flag)) ≡ ok true)
      × (verify_message s c (Messgae.aba_val (new_aba_val s name l e r i flag)) ≡ ok true)
      × (verify_message s c (Messgae.aba_mux (new_aba_mux s name l e r i flag)) ≡ ok true)
      × (verify_message s c (Messgae.coin_share (new_coin_share s name l e r i)) ≡ ok true)
      × (verify_message s c (Messgae.aba_halt (new_aba_halt s name l e r i flag)) ≡ ok true)
unfolding verify_message new_proposal new_commitment new_ready new_final new_elect_share new_vote
    new_aba_val new_aba_mux new_coin_share new_aba_halt proposal_verify commitment_verify
    ready_verify final_verify elect_share_verify vote_verify aba_val_verify aba_mux_verify
    coin_share_verify aba_halt_verify proposal_hash commitment_hash ready_hash final_hash
    elect_share_hash vote_hash aba_val_hash aba_mux_hash coin_share_hash aba_halt_hash share_verify
mvba_messages_verify s c name p l b sl e r i tag flag k =
    let a = accepted s c name k in ((_, refl, a _), a _, a _, a _, refl, a _, a _, a _, refl, a _)

-- The same signature, under the header of another message.
abbrev pub as_vote : AbaVal → Int64 → Vote
as_vote v r = record {
  author = v.author;
  leader = v.leader;
  epoch = v.epoch;
  round = r;
  flag = v.flag;
  signature = v.signature;
}

abbrev pub as_mux : AbaVal → Int64 → Int64 → AbaMux
as_mux v r i = record {
  author = v.author;
  leader = v.leader;
  epoch = v.epoch;
  round = r;
  in_round = i;
  flag = v.flag;
  signature = v.signature;
}

abbrev pub as_halt : AbaVal → Int64 → Int64 → AbaHalt
as_halt v r i = record {
  author = v.author;
  leader = v.leader;
  epoch = v.epoch;
  round = r;
  in_round = i;
  flag = v.flag;
  signature = v.signature;
}

-- The check of a value of an agreement of MVBA gives the same for the same content and signature
-- as a value of any other round and round of the agreement, as a vote, as a mux and as a halt of
-- any round; and the check of a commitment is the same for any other list of broadcasts in it.
pub mvba_verify_not_covered :
    (s : SigService) (c : Committee) (v : AbaVal) (m : Commitment) (r i : Int64) (sl : Option Slice)
    → (verify_message s c (Messgae.aba_val (record v { round = r; in_round = i }))
        ≡ verify_message s c (Messgae.aba_val v))
      × (verify_message s c (Messgae.vote (as_vote v r)) ≡ verify_message s c (Messgae.aba_val v))
      × (verify_message s c (Messgae.aba_mux (as_mux v r i))
          ≡ verify_message s c (Messgae.aba_val v))
      × (verify_message s c (Messgae.aba_halt (as_halt v r i))
          ≡ verify_message s c (Messgae.aba_val v))
      × (verify_message s c (Messgae.commitment (record m { c = sl }))
          ≡ verify_message s c (Messgae.commitment m))
unfolding verify_message commitment_verify vote_verify aba_val_verify aba_mux_verify aba_halt_verify
    commitment_hash vote_hash aba_val_hash aba_mux_hash aba_halt_hash
mvba_verify_not_covered s c v m r i sl = (refl, refl, refl, refl, refl)
