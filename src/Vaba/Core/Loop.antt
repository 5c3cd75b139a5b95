-- ===== src/Vaba/Core/Loop.antt =====
-- core/vaba/consensus/core.go, `Run`: the first proposal, one round of the loop, and a goroutine of
-- an instance. A nil vote, which is no message here, would panic in the loop.
use bft_mvba.Methods.{core, lift, ◌>>=◌}
use bft_mvba.Base.{List, some, ok, err, err_signature, if◌then◌else◌, Int64, put2}
use bft_mvba.Committee.{NodeId}
use bft_mvba.Vaba.Messages.{
  Proposal, Vote, Messgae, msg_type, verify_message, new_proposal, phase_one_falg,
}
use bft_mvba.Vaba.Effects.{Effect}
use bft_mvba.Vaba.Promote.{Promote, process_proposal, process_vote}
use bft_mvba.Vaba.Core.State.{Services, M, generator_block, pb_or_new, is_skip}
use bft_mvba.Vaba.Core.Epochs.{tell}
use bft_mvba.Vaba.Core.Handlers.{
  handle_proposal, handle_vote, handle_done, handle_skip_share, handle_skip, handle_elect_share,
  handle_view_change, handle_halt,
}

-- What `Run` does before its loop.
unfoldable pub first_proposal : M (Unit {0})
unfolding generator_block
first_proposal = do
  c ← core
  b ← generator_block c.epoch
  tell (Messgae.proposal (new_proposal c.sig_service c.name c.epoch phase_one_falg (some b)))

unfoldable pub dispatch : Services → Messgae → M (Unit {0})
unfolding handle_proposal handle_vote handle_done handle_skip_share handle_skip handle_elect_share
    handle_view_change handle_halt
dispatch sv (Messgae.proposal m) = handle_proposal sv m
dispatch sv (Messgae.vote m) = handle_vote m
dispatch sv (Messgae.done m) = handle_done m
dispatch sv (Messgae.skip_share m) = handle_skip_share m
dispatch sv (Messgae.skip m) = handle_skip m
dispatch sv (Messgae.elect_share m) = handle_elect_share m
dispatch sv (Messgae.view_change m) = handle_view_change sv m
dispatch sv (Messgae.halt m) = handle_halt sv m

-- One message from the receive channel: checked, then handled; an error is logged by the loop.
unfoldable pub receive : Services → Messgae → M (Unit {0})
unfolding verify_message dispatch msg_type
receive sv m = do
  c ← core
  valid ← lift (verify_message c.sig_service c.committee m)
  if valid then dispatch sv m else lift (err (err_signature (msg_type m)))

-- The instance that a goroutine works on, as it leaves it.
abbrev pub keep_pb : Int64 → NodeId → Promote × List Effect → M (Unit {0})
keep_pb epoch node (s, es) c =
    (ok tt, record c { pb_instances = put2 c.pb_instances epoch node (some s) }, es)

unfoldable pub run_proposal : Int64 → NodeId → Proposal → M (Unit {0})
unfolding process_proposal
run_proposal epoch node p = do
  c ← core
  r ← lift (process_proposal c.identity (pb_or_new c epoch node) p)
  keep_pb epoch node r

unfoldable pub run_vote : Int64 → NodeId → Vote → M (Unit {0})
unfolding process_vote is_skip
run_vote epoch node v = do
  c ← core
  keep_pb epoch node (process_vote c.identity (pb_or_new c epoch node) (is_skip c epoch) v)
