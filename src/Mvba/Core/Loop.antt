-- ===== src/Mvba/Core/Loop.antt =====
-- core/mvba/consensus/core.go, `Run`: the first proposal, one round of the loop, and a goroutine of an
-- instance.
use bft_mvba.Methods.{◌>>=◌, lift, core}
use bft_mvba.Base.{Option, none, some, List, ok, Error, err_signature, if◌then◌else◌, Int64}
use bft_mvba.Committee.{NodeId}
use bft_mvba.Mvba.Messages.{Uint8, Messgae, msg_type, verify_message, new_proposal}
use bft_mvba.Mvba.Effects.{Effect, CbcTask, AbaTask}
use bft_mvba.Mvba.Cbc.{Cbc, run_cbc}
use bft_mvba.Mvba.Aba.{Aba, run_aba}
use bft_mvba.Mvba.Core.State.{
  Services, M, generate_block, cbc_or_new, keep_cbc, aba_or_new, keep_aba,
}
use bft_mvba.Mvba.Core.Rounds.{propose}
use bft_mvba.Mvba.Core.Handlers.{
  handle_proposal, handle_commitment, handle_ready, handle_final, handle_elect_share, handle_vote,
  handle_aba_val, handle_aba_mux, handle_coin_share, handle_aba_halt,
}

-- What `Run` does before its loop.
unfoldable pub first_proposal : M (Unit {0})
unfolding generate_block new_proposal
first_proposal = do c ← core; b ← generate_block c.epoch; propose b

unfoldable pub dispatch : Services → Messgae → M (Unit {0})
unfolding handle_proposal handle_commitment handle_ready handle_final handle_elect_share handle_vote
    handle_aba_val handle_aba_mux handle_coin_share handle_aba_halt
dispatch sv (Messgae.proposal m) = handle_proposal sv m
dispatch sv (Messgae.commitment m) = handle_commitment m
dispatch sv (Messgae.ready m) = handle_ready m
dispatch sv (Messgae.final m) = handle_final m
dispatch sv (Messgae.elect_share m) = handle_elect_share sv m
dispatch sv (Messgae.vote m) = handle_vote m
dispatch sv (Messgae.aba_val m) = handle_aba_val m
dispatch sv (Messgae.aba_mux m) = handle_aba_mux m
dispatch sv (Messgae.coin_share m) = handle_coin_share m
dispatch sv (Messgae.aba_halt m) = handle_aba_halt m

-- `err = c.handle…(…)`: the error that stood in `err` before is gone.
abbrev pub overwrite : Option Error → M (Unit {0}) → M (Unit {0})
overwrite _ m = m

-- One message from the receive channel: its check sets `err`, and then it is handled.
unfoldable pub receive : Services → Messgae → M (Unit {0})
unfolding verify_message dispatch msg_type
receive sv m = do
  c ← core
  valid ← lift (verify_message c.sig_service c.committee m)
  overwrite (if valid then none else some (err_signature (msg_type m))) (dispatch sv m)

-- The instance that a goroutine works on, as it leaves it.
abbrev pub leave_cbc : Int64 → NodeId → Uint8 → Cbc × List Effect → M (Unit {0})
leave_cbc epoch node tag (s, es) c = (ok tt, keep_cbc c epoch node tag s, es)

unfoldable pub run_cbc_task : Int64 → NodeId → Uint8 → CbcTask → M (Unit {0})
unfolding run_cbc
run_cbc_task epoch node tag t = do
  c ← core
  r ← lift (run_cbc c.identity (cbc_or_new c epoch node tag) tag t)
  leave_cbc epoch node tag r

abbrev pub leave_aba : Int64 → Int64 → Aba × List Effect → M (Unit {0})
leave_aba epoch round (s, es) c = (ok tt, keep_aba c epoch round s, es)

unfoldable pub run_aba_task : Int64 → Int64 → AbaTask → M (Unit {0})
unfolding run_aba
run_aba_task epoch round t = do
  c ← core
  leave_aba epoch round (run_aba c.identity (aba_or_new c epoch round) t)
