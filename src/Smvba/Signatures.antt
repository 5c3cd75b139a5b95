-- ===== src/Smvba/Signatures.antt =====
-- core/smvba/consensus/message.go: what the signatures of the messages cover.
use Prim.Native.String.{len}
use bft_mvba.Base.{true, Option, ok, Int64, Int8, ◌≡◌, refl, arith}
use bft_mvba.Committee.{NodeId, Committee, name_of}
use bft_mvba.Crypto.{Digest, SigService, verify, request_signature, share_verify}
use bft_mvba.Smvba.Messages.{Block, SpbVote, Halt}
use bft_mvba.Smvba.Signing.{
  Messgae, verify_message, spb_proposal_hash, new_spb_proposal, spb_proposal_verify, spb_vote_hash,
  new_spb_vote, spb_vote_verify, finish_hash, new_finish, finish_verify, done_hash, new_done,
  done_verify, elect_share_hash, new_elect_share, elect_share_verify, prevote_hash, new_prevote,
  prevote_verify, fin_vote_hash, new_fin_vote, fin_vote_verify, halt_hash, new_halt, halt_verify,
}

-- The node's keys are those that the committee lists under its name: the key has the right length,
-- and it accepts what the node signs.
pub record HasKeys (s : SigService) (c : Committee) (name : NodeId) : Type 0 where
  pub long : len (name_of c name) ≡ 32
  pub accepts : (d : Digest) → s.ed25519_verify (name_of c name) d (s.ed25519_sign d) ≡ true

pub accepted :
    (s : SigService) (c : Committee) (name : NodeId)
    → HasKeys s c name
    → (d : Digest) → verify s (request_signature s d) (name_of c name) d ≡ ok true
unfolding verify request_signature
accepted s c name k d = ground (arith, k.long, k.accepts d)

-- Every message of the eight kinds that a node makes is accepted by the check of every node with
-- the same committee, if the committee lists the key of the node.
pub new_messages_verify :
    (s : SigService) (c : Committee) (name : NodeId) (p leader : NodeId) (b : Option Block)
    (d : Digest) (e r : Int64) (phase flag : Int8)
    → HasKeys s c name
    → (verify_message s c (Messgae.spb_proposal (new_spb_proposal s name b e r phase)) ≡ ok true)
      × (verify_message s c (Messgae.spb_vote (new_spb_vote s name p d e r phase)) ≡ ok true)
      × (verify_message s c (Messgae.finish (new_finish s name d e r)) ≡ ok true)
      × (verify_message s c (Messgae.done (new_done s name e r)) ≡ ok true)
      × (verify_message s c (Messgae.elect_share (new_elect_share s name e r)) ≡ ok true)
      × (verify_message s c (Messgae.prevote (new_prevote s name leader e r flag d)) ≡ ok true)
      × (verify_message s c (Messgae.fin_vote (new_fin_vote s name leader e r flag d)) ≡ ok true)
      × (verify_message s c (Messgae.halt (new_halt s name leader d e r)) ≡ ok true)
unfolding verify_message spb_proposal_verify spb_vote_verify finish_verify done_verify
    elect_share_verify prevote_verify fin_vote_verify halt_verify share_verify new_spb_proposal
    new_spb_vote new_finish new_done new_elect_share new_prevote new_fin_vote new_halt
    spb_proposal_hash spb_vote_hash finish_hash done_hash elect_share_hash prevote_hash
    fin_vote_hash halt_hash
new_messages_verify s c name p leader b d e r phase flag k =
    let a = accepted s c name k in (a _, a _, a _, a _, refl, a _, a _, a _)

-- The check of a vote gives the same for any other proposer in the vote, and the check of a halt
-- the same for any other round in the halt.
pub verify_not_covered :
    (s : SigService) (c : Committee) (v : SpbVote) (h : Halt) (p : NodeId) (r : Int64)
    → (verify_message s c (Messgae.spb_vote (record v { proposer = p }))
        ≡ verify_message s c (Messgae.spb_vote v))
      × (verify_message s c (Messgae.halt (record h { round = r }))
          ≡ verify_message s c (Messgae.halt h))
unfolding verify_message spb_vote_verify halt_verify spb_vote_hash halt_hash
verify_not_covered s c v h p r = (refl, refl)
