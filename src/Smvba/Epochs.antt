-- ===== src/Smvba/Epochs.antt =====
-- core/smvba/consensus/core.go: how the epoch of a node moves.
use bft_mvba.Methods.{Reaches-Respects, IsTrace, Respects}
use bft_mvba.Base.{true, List, [], ok, Int64, slt, ◌≡◌, ◌≢◌, refl, arith, ◌⊎◌, inl, slt_trans}
use bft_mvba.Smvba.Messages.{SpbProposal, SpbVote, Prevote, FinVote, Halt, Done, Finish, ElectShare}
use bft_mvba.Smvba.Signing.{Messgae, msg_type}
use bft_mvba.Smvba.Effects.{Effect}
use bft_mvba.Smvba.Runs.{
  Event, begin, message, proposal_task, vote_task, run_event, Reaches, receive-Respects,
}
use bft_mvba.Smvba.Core.{
  Services, Core, generator_block, handle_spb_proposal, handle_spb_vote, handle_finish, handle_done,
  handle_elect_share, handle_prevote, handle_finvote, handle_halt, receive, dispatch, run_proposal,
  run_vote, first_proposal,
}

-- The epoch is the same, or a later one.
abbrev pub NotBack : Core → Core → Type 0
NotBack c d = (d.epoch ≡ c.epoch) ⊎ (slt c.epoch d.epoch ≡ true)

epoch-handle_spb_proposal :
    (sv : Services) (p : SpbProposal) (c : Core) → (handle_spb_proposal sv p c).1.epoch ≡ c.epoch
unfolding handle_spb_proposal
epoch-handle_spb_proposal sv p c = ground arith

epoch-handle_spb_vote : (v : SpbVote) (c : Core) → (handle_spb_vote v c).1.epoch ≡ c.epoch
unfolding handle_spb_vote
epoch-handle_spb_vote v c = ground arith

epoch-handle_finish : (f : Finish) (c : Core) → (handle_finish f c).1.epoch ≡ c.epoch
unfolding handle_finish
epoch-handle_finish f c = ground arith

epoch-handle_done : (d : Done) (c : Core) → (handle_done d c).1.epoch ≡ c.epoch
unfolding handle_done
epoch-handle_done d c = ground arith

epoch-handle_elect_share : (s : ElectShare) (c : Core) → (handle_elect_share s c).1.epoch ≡ c.epoch
unfolding handle_elect_share
epoch-handle_elect_share s c = ground arith

epoch-handle_prevote : (v : Prevote) (c : Core) → (handle_prevote v c).1.epoch ≡ c.epoch
unfolding handle_prevote
epoch-handle_prevote v c = ground arith

epoch-handle_finvote :
    (sv : Services) (v : FinVote) (c : Core) → (handle_finvote sv v c).1.epoch ≡ c.epoch
unfolding handle_finvote
epoch-handle_finvote sv v c = ground arith

epoch-handle_halt : (sv : Services) (h : Halt) (c : Core) → NotBack c (handle_halt sv h c).1
unfolding handle_halt
epoch-handle_halt sv h c = ground arith

NotBack-IsTrace : IsTrace {E = Effect} (λ c d es. NotBack c d)
NotBack-IsTrace = record {
  still = λ c. inl refl;
  chain = λ c d k es fs h g. ground (arith, slt_trans c.epoch d.epoch k.epoch);
}

NotBack-dispatch : (sv : Services) (m : Messgae) → Respects (λ c d es. NotBack c d) (dispatch sv m)
unfolding dispatch
NotBack-dispatch sv (Messgae.spb_proposal m) c = inl (epoch-handle_spb_proposal sv m c)
NotBack-dispatch sv (Messgae.spb_vote m) c = inl (epoch-handle_spb_vote m c)
NotBack-dispatch sv (Messgae.finish m) c = inl (epoch-handle_finish m c)
NotBack-dispatch sv (Messgae.done m) c = inl (epoch-handle_done m c)
NotBack-dispatch sv (Messgae.elect_share m) c = inl (epoch-handle_elect_share m c)
NotBack-dispatch sv (Messgae.prevote m) c = inl (epoch-handle_prevote m c)
NotBack-dispatch sv (Messgae.fin_vote m) c = inl (epoch-handle_finvote sv m c)
NotBack-dispatch sv (Messgae.halt m) c = epoch-handle_halt sv m c

NotBack-run_event :
    (sv : Services) (ev : Event) → Respects (λ c d es. NotBack c d) (run_event sv ev)
unfolding run_event first_proposal run_proposal run_vote generator_block
NotBack-run_event sv begin = λ c. ground arith
NotBack-run_event sv (message m) = receive-Respects NotBack-IsTrace sv m (NotBack-dispatch sv m)
NotBack-run_event sv (proposal_task i j n p) = λ c. ground arith
NotBack-run_event sv (vote_task i j n v) = λ c. ground arith

-- Over any run of a node its epoch stays or grows, as a signed number.
pub epoch-NotBack :
    (sv : Services) (c : Core) {d : Core} {evs : List Event} {es : List Effect}
    → Reaches sv c d evs es
    → NotBack c d
epoch-NotBack sv c reach = Reaches-Respects NotBack-IsTrace (NotBack-run_event sv) reach

abbrev pub epoch_of : Messgae → Int64
epoch_of (Messgae.spb_proposal m) = m.epoch
epoch_of (Messgae.spb_vote m) = m.epoch
epoch_of (Messgae.finish m) = m.epoch
epoch_of (Messgae.done m) = m.epoch
epoch_of (Messgae.elect_share m) = m.epoch
epoch_of (Messgae.prevote m) = m.epoch
epoch_of (Messgae.fin_vote m) = m.epoch
epoch_of (Messgae.halt m) = m.epoch

dispatch_stale :
    (sv : Services) (m : Messgae) (c : Core)
    → slt (epoch_of m) c.epoch ≡ true
    → msg_type m ≢ 0
    → dispatch sv m c ≡ (ok tt, c, [])
unfolding dispatch handle_spb_vote handle_finish handle_done handle_elect_share handle_prevote
    handle_finvote handle_halt msg_type
dispatch_stale sv (Messgae.spb_proposal m) c old other = absurd (other refl)
dispatch_stale sv (Messgae.spb_vote m) c old other = rw old refl
dispatch_stale sv (Messgae.finish m) c old other = rw old refl
dispatch_stale sv (Messgae.done m) c old other = rw old refl
dispatch_stale sv (Messgae.elect_share m) c old other = rw old refl
dispatch_stale sv (Messgae.prevote m) c old other = rw old refl
dispatch_stale sv (Messgae.fin_vote m) c old other = rw old refl
dispatch_stale sv (Messgae.halt m) c old other = rw old refl

-- A message of an epoch that the node has left, other than a proposal, changes nothing of its
-- state and sets nothing off, whether its signature is valid or not.
pub receive_stale :
    (sv : Services) (m : Messgae) (c : Core)
    → slt (epoch_of m) c.epoch ≡ true
    → msg_type m ≢ 0
    → ((receive sv m c).1 ≡ c) × ((receive sv m c).2 ≡ [])
unfolding receive
receive_stale sv m c old other =
    let same = dispatch_stale sv m c old other in (ground (arith, same), ground (arith, same))
