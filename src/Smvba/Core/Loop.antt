-- ===== src/Smvba/Core/Loop.antt =====
-- core/smvba/consensus/core.go, `Run`: the first proposal, one round of the loop, and a goroutine of
-- an instance.
use bft_mvba.Methods.{core, lift, ◌>>=◌}
use bft_mvba.Base.{List, some, ok, err, err_signature, if◌then◌else◌, Int64, put3}
use bft_mvba.Committee.{NodeId}
use bft_mvba.Smvba.Messages.{SpbProposal, SpbVote, spb_one_phase}
use bft_mvba.Smvba.Signing.{Messgae, msg_type, verify_message, new_spb_proposal}
use bft_mvba.Smvba.Effects.{Effect}
use bft_mvba.Smvba.Spb.{Spb, process_proposal, process_vote}
use bft_mvba.Smvba.Core.State.{Services, M, generator_block, spb_or_new}
use bft_mvba.Smvba.Core.Rounds.{tell}
use bft_mvba.Smvba.Core.Handlers.{
  handle_spb_proposal, handle_spb_vote, handle_finish, handle_done, handle_elect_share,
  handle_prevote, handle_finvote, handle_halt,
}

-- What `Run` does before its loop.
unfoldable pub first_proposal : M (Unit {0})
unfolding generator_block
first_proposal = do
  c ← core
  b ← generator_block c.epoch
  tell (
      Messgae.spb_proposal (new_spb_proposal c.sig_service c.name (some b) c.epoch 0 spb_one_phase))

unfoldable pub dispatch : Services → Messgae → M (Unit {0})
unfolding handle_spb_proposal handle_spb_vote handle_finish handle_done handle_elect_share
    handle_prevote handle_finvote handle_halt
dispatch sv (Messgae.spb_proposal m) = handle_spb_proposal sv m
dispatch sv (Messgae.spb_vote m) = handle_spb_vote m
dispatch sv (Messgae.finish m) = handle_finish m
dispatch sv (Messgae.done m) = handle_done m
dispatch sv (Messgae.elect_share m) = handle_elect_share m
dispatch sv (Messgae.prevote m) = handle_prevote m
dispatch sv (Messgae.fin_vote m) = handle_finvote sv m
dispatch sv (Messgae.halt m) = handle_halt sv m

-- One message from the receive channel: checked, then handled; an error is logged by the loop.
unfoldable pub receive : Services → Messgae → M (Unit {0})
unfolding verify_message dispatch msg_type
receive sv m = do
  c ← core
  valid ← lift (verify_message c.sig_service c.committee m)
  if valid then dispatch sv m else lift (err (err_signature (msg_type m)))

-- The instance that a goroutine works on, as it leaves it.
abbrev pub keep_spb : Int64 → Int64 → NodeId → Spb × List Effect → M (Unit {0})
keep_spb epoch round node (s, es) c =
    (ok tt, record c { spb_instances = put3 c.spb_instances epoch round node (some s) }, es)

unfoldable pub run_proposal : Int64 → Int64 → NodeId → SpbProposal → M (Unit {0})
unfolding process_proposal
run_proposal epoch round node p = do
  c ← core
  r ← lift (process_proposal c.identity (spb_or_new c epoch round node) p)
  keep_spb epoch round node r

unfoldable pub run_vote : Int64 → Int64 → NodeId → SpbVote → M (Unit {0})
unfolding process_vote
run_vote epoch round node v = do
  c ← core
  keep_spb epoch round node (process_vote c.identity (spb_or_new c epoch round node) v)
