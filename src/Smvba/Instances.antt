-- ===== src/Smvba/Instances.antt =====
-- core/smvba/consensus/core.go: no method but the goroutines of an instance changes the instance.
use bft_mvba.Methods.{IsTrace, Respects}
use bft_mvba.Base.{inc, List, Int64, ◌≡◌, refl, ◌∙◌, arith}
use bft_mvba.Committee.{NodeId}
use bft_mvba.Crypto.{Digest}
use bft_mvba.Smvba.Messages.{SpbProposal, SpbVote, Prevote, FinVote, Halt, Done, Finish, ElectShare}
use bft_mvba.Smvba.Signing.{Messgae}
use bft_mvba.Smvba.Effects.{Effect}
use bft_mvba.Smvba.Spb.{get_block_hash}
use bft_mvba.Smvba.Runs.{handle_halt-Respects}
use bft_mvba.Smvba.Core.{
  spb_or_new, Services, Core, store_block, get_spb_instance, generator_block, commit_block,
  get_block, invoke_done_and_share, process_leader, handle_output, advance_next_epoch,
  handle_spb_proposal, handle_spb_vote, handle_finish, handle_done, handle_elect_share,
  handle_prevote, handle_finvote, handle_halt, dispatch, first_proposal,
}

-- The instance is as it was, where one that is not made yet counts as new.
abbrev pub SameSpb : Int64 → Int64 → NodeId → Core → Core → List Effect → Type 0
SameSpb e r n c d es = spb_or_new d e r n ≡ spb_or_new c e r n

SameSpb-IsTrace : (e r : Int64) (n : NodeId) → IsTrace (SameSpb e r n)
SameSpb-IsTrace e r n = record { still = λ c. refl; chain = λ c d k es fs h g. g ∙ h }

spb-handle_output :
    (e r : Int64) (n : NodeId) (sv : Services) (i : Int64) (d : Digest)
    → Respects (SameSpb e r n) (handle_output sv i d)
unfolding handle_output get_spb_instance commit_block get_block get_block_hash
spb-handle_output e r n sv i d c = ground arith

spb-advance_next_epoch :
    (e r : Int64) (n : NodeId) (i : Int64) → Respects (SameSpb e r n) (advance_next_epoch i)
unfolding advance_next_epoch generator_block
spb-advance_next_epoch e r n i c = ground arith

spb-handle_spb_proposal :
    (e r : Int64) (n : NodeId) (sv : Services) (p : SpbProposal)
    → Respects (SameSpb e r n) (handle_spb_proposal sv p)
unfolding handle_spb_proposal store_block get_spb_instance commit_block
spb-handle_spb_proposal e r n sv p c = ground arith

spb-handle_spb_vote :
    (e r : Int64) (n : NodeId) (v : SpbVote) → Respects (SameSpb e r n) (handle_spb_vote v)
unfolding handle_spb_vote get_spb_instance
spb-handle_spb_vote e r n v c = ground arith

spb-handle_finish :
    (e r : Int64) (n : NodeId) (f : Finish) → Respects (SameSpb e r n) (handle_finish f)
unfolding handle_finish invoke_done_and_share
spb-handle_finish e r n f c = ground arith

spb-handle_done : (e r : Int64) (n : NodeId) (m : Done) → Respects (SameSpb e r n) (handle_done m)
unfolding handle_done invoke_done_and_share process_leader get_spb_instance
spb-handle_done e r n m c = ground arith

spb-handle_elect_share :
    (e r : Int64) (n : NodeId) (m : ElectShare) → Respects (SameSpb e r n) (handle_elect_share m)
unfolding handle_elect_share
spb-handle_elect_share e r n m c = ground arith

spb-handle_prevote :
    (e r : Int64) (n : NodeId) (m : Prevote) → Respects (SameSpb e r n) (handle_prevote m)
unfolding handle_prevote
spb-handle_prevote e r n m c = ground arith

spb-handle_finvote :
    (e r : Int64) (n : NodeId) (sv : Services) (m : FinVote)
    → Respects (SameSpb e r n) (handle_finvote sv m)
unfolding handle_finvote
spb-handle_finvote e r n sv m c = ground arith

spb-handle_halt :
    (e r : Int64) (n : NodeId) (sv : Services) (h : Halt)
    → Respects (SameSpb e r n) (handle_halt sv h)
spb-handle_halt e r n sv h =
    handle_halt-Respects (SameSpb-IsTrace e r n) sv h (λ c. refl)
      (spb-handle_output e r n sv h.epoch h.block_hash) (λ c. refl)
      (spb-advance_next_epoch e r n (inc h.epoch))

pub spb-first_proposal : (e r : Int64) (n : NodeId) → Respects (SameSpb e r n) first_proposal
unfolding first_proposal generator_block
spb-first_proposal e r n c = ground arith

pub spb-dispatch :
    (e r : Int64) (n : NodeId) (sv : Services) (m : Messgae)
    → Respects (SameSpb e r n) (dispatch sv m)
unfolding dispatch
spb-dispatch e r n sv (Messgae.spb_proposal m) = spb-handle_spb_proposal e r n sv m
spb-dispatch e r n sv (Messgae.spb_vote m) = spb-handle_spb_vote e r n m
spb-dispatch e r n sv (Messgae.finish m) = spb-handle_finish e r n m
spb-dispatch e r n sv (Messgae.done m) = spb-handle_done e r n m
spb-dispatch e r n sv (Messgae.elect_share m) = spb-handle_elect_share e r n m
spb-dispatch e r n sv (Messgae.prevote m) = spb-handle_prevote e r n m
spb-dispatch e r n sv (Messgae.fin_vote m) = spb-handle_finvote e r n sv m
spb-dispatch e r n sv (Messgae.halt m) = spb-handle_halt e r n sv m
