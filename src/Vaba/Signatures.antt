-- ===== src/Vaba/Signatures.antt =====
-- core/vaba/consensus/message.go and core.go: what the signatures of the messages cover, and what
-- that lets through.
use bft_mvba.Base.{true, false, Option, none, ok, panic, Int64, Int8, Bool, ◌≡◌, refl}
use bft_mvba.Committee.{NodeId, Committee}
use bft_mvba.Crypto.{Digest, SigService, share_verify}
use bft_mvba.Smvba.Signatures.{HasKeys, accepted}
use bft_mvba.Vaba.Messages.{
  Block, ViewChange, Messgae, verify_message, proposal_hash, new_proposal, proposal_verify,
  vote_hash, new_vote, vote_verify, done_hash, new_done, done_verify, skip_share_hash,
  new_skip_share, skip_share_verify, skip_hash, new_skip, skip_verify, elect_share_hash,
  new_elect_share, elect_share_verify, view_change_hash, new_view_change, view_change_verify,
  halt_hash, new_halt, halt_verify,
}
use bft_mvba.Vaba.Core.{Services, Core, message_filter, dispatch, receive, handle_view_change}

-- Every message of the eight kinds that a node makes is accepted by the check of every node with the
-- same committee, if the committee lists the key of the node.
pub vaba_messages_verify :
    (s : SigService) (c : Committee) (name : NodeId) (p leader : NodeId) (b : Option Block)
    (d : Digest) (h : Option Digest) (e : Int64) (phase : Int8) (commit lock key : Bool)
    → HasKeys s c name
    → (verify_message s c (Messgae.proposal (new_proposal s name e phase b)) ≡ ok true)
      × (verify_message s c (Messgae.vote (new_vote s name p d e phase)) ≡ ok true)
      × (verify_message s c (Messgae.done (new_done s name e)) ≡ ok true)
      × (verify_message s c (Messgae.skip_share (new_skip_share s name e)) ≡ ok true)
      × (verify_message s c (Messgae.skip (new_skip s name e)) ≡ ok true)
      × (verify_message s c (Messgae.elect_share (new_elect_share s name e)) ≡ ok true)
      × (verify_message s c
            (Messgae.view_change (new_view_change s name leader e h commit lock key))
          ≡ ok true)
      × (verify_message s c (Messgae.halt (new_halt s name leader d e)) ≡ ok true)
unfolding verify_message proposal_verify vote_verify done_verify skip_share_verify skip_verify
    elect_share_verify view_change_verify halt_verify share_verify new_proposal new_vote new_done
    new_skip_share new_skip new_elect_share new_view_change new_halt proposal_hash vote_hash
    done_hash skip_share_hash skip_hash elect_share_hash view_change_hash halt_hash
vaba_messages_verify s c name p leader b d h e phase commit lock key k =
    let a = accepted s c name k in (a _, a _, a _, a _, a _, refl, a _, a _)

-- A view change without the hash of its block, for another epoch.
abbrev pub stripped : ViewChange → Int64 → ViewChange
stripped v epoch = record v { epoch = epoch; block_hash = none }

stripped-verify :
    (s : SigService) (c : Committee) (v : ViewChange) (epoch : Int64)
    → verify_message s c (Messgae.view_change (stripped v epoch))
      ≡ verify_message s c (Messgae.view_change v)
unfolding verify_message view_change_verify view_change_hash
stripped-verify s c v epoch = refl

stripped-panic :
    (sv : Services) (c : Core) (v : ViewChange) (epoch : Int64)
    → v.is_commit ≡ true
    → message_filter c epoch ≡ false
    → c.commit_flag epoch ≡ false
    → (handle_view_change sv (stripped v epoch) c).0 ≡ panic
unfolding handle_view_change
stripped-panic sv c v epoch commits new undone = rw (new, undone, commits) refl

-- Where a view change that says that its sender has committed passes the check, a copy of it
-- without the hash of the block and for any other epoch, one that the node has neither left nor
-- decided, makes the node panic.
pub view_change_crashes :
    (sv : Services) (c : Core) (v : ViewChange) (epoch : Int64)
    → verify_message c.sig_service c.committee (Messgae.view_change v) ≡ ok true
    → v.is_commit ≡ true
    → message_filter c epoch ≡ false
    → c.commit_flag epoch ≡ false
    → (receive sv (Messgae.view_change (stripped v epoch)) c).0 ≡ panic
unfolding receive dispatch
view_change_crashes sv c v epoch valid commits new undone =
    rw (stripped-verify c.sig_service c.committee v epoch, valid)
      (stripped-panic sv c v epoch commits new undone)
