-- ===== src/Smvba/Halts.antt =====
-- core/smvba/consensus/core.go, `handleFinvote` and `handleHalt`: how an epoch ends.
use bft_mvba.Base.{inc, true, false, ok, Int8, Int64, slt, slt-between, ◌≡◌, arith}
use bft_mvba.Committee.{NodeId}
use bft_mvba.Crypto.{Digest, SigService}
use bft_mvba.Smvba.Messages.{Halt}
use bft_mvba.Smvba.Signing.{Messgae, new_halt, new_fin_vote}
use bft_mvba.Smvba.Effects.{tell_all}
use bft_mvba.Smvba.Aggreator.{add_fin_vote, action_commit}
use bft_mvba.Smvba.Core.{
  Services, Core, handle_finvote, handle_halt, handle_output, advance_next_epoch, generator_block,
}

-- Where a final vote made by `NewFinVote`, of an epoch that the node has not left, draws the
-- decision to commit, all that the node does is to tell everybody to halt under the leader 0,
-- whatever leader the vote was made for.
pub commit_names_zero :
    (sv : Services) (c : Core) (s : SigService) (author for_leader : NodeId) (e r : Int64)
    (flag : Int8) (d : Digest)
    → slt e c.epoch ≡ false
    → (add_fin_vote c.aggreator (new_fin_vote s author for_leader e r flag d)).0 ≡ ok action_commit
    → (handle_finvote sv (new_fin_vote s author for_leader e r flag d) c).2
      ≡ tell_all c.identity (Messgae.halt (new_halt c.sig_service c.name 0 d e r))
unfolding handle_finvote new_fin_vote
commit_names_zero sv c s author for_leader e r flag d now commits = ground arith

-- A halt that is handled without an error, of an epoch that the node has neither left nor halted
-- and whose successor does not overflow, sets the halt flag of the epoch and moves the node to a
-- later epoch.
pub one_halt_decides :
    (sv : Services) (c : Core) (h : Halt)
    → slt h.epoch c.epoch ≡ false
    → c.halt_flags h.epoch ≡ false
    → slt h.epoch (inc h.epoch) ≡ true
    → (handle_halt sv h c).0 ≡ ok tt
    → ((handle_halt sv h c).1.halt_flags h.epoch ≡ true)
      × (slt h.epoch (handle_halt sv h c).1.epoch ≡ true)
unfolding handle_halt handle_output advance_next_epoch generator_block
one_halt_decides sv c h now fresh room fine =
    (ground arith, ground (arith, slt-between h.epoch (inc h.epoch) c.epoch room now))
