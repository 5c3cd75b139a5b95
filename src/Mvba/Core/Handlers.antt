-- ===== src/Mvba/Core/Handlers.antt =====
-- core/mvba/consensus/core.go: the handlers of the ten messages and of what the broadcasts give back.
use bft_mvba.Methods.{◌>>=◌, ◌>>◌, return_nil, lift, core, modify, emit}
use bft_mvba.Base.{
  Bool, not, [], ◌∷◌, Option, none, some, Outcome, err, err_other, if◌then◌else◌, ◌==◌, Int64,
}
use bft_mvba.Committee.{NodeId, no_node, hight_threshold}
use bft_mvba.Mvba.Messages.{
  Uint8, flag_yes, flag_no, Slice, Proposal, Commitment, Ready, Final, ElectShare, Vote, AbaVal,
  AbaMux, CoinShare, AbaHalt, Messgae, new_commitment, new_elect_share,
}
use bft_mvba.Mvba.Effects.{
  send, loopback, go_cbc, go_aba, CbcBack, CbcTask, AbaTask, data_cbc, commit_cbc,
}
use bft_mvba.Mvba.Counters.{Aggreator, add_vote, add_coin_share, action_no, action_one}
use bft_mvba.Mvba.Commits.{commit_leader}
use bft_mvba.Mvba.Elector.{add_elect_share}
use bft_mvba.Mvba.Core.State.{
  Services, M, store_block, get_cbc_instance, get_aba_instance, add_finals, add_commitment,
  slice_of, check_vote, message_filter, commit_block,
}
use bft_mvba.Mvba.Core.Rounds.{tell, invoke_stage_two, invoke_aba_val}

-- `go c.getCBCInstance(epoch, node, tag).…`
abbrev pub start_cbc : Int64 → NodeId → Uint8 → CbcTask → M (Unit {0})
start_cbc epoch node tag t = do
  s ← get_cbc_instance epoch node tag
  emit (go_cbc epoch node tag t ∷ [])

-- `go c.getABAInstance(epoch, round).…`
abbrev pub start_aba : Int64 → Int64 → AbaTask → M (Unit {0})
start_aba epoch round t = do s ← get_aba_instance epoch round; emit (go_aba epoch round t ∷ [])

-- A block of an epoch whose leader is known is given to the commitor.
abbrev pub late_block : Proposal → M (Unit {0})
late_block p = do
  c ← core
  if commit_leader c.commitor p.epoch == p.author
      then commit_block p.epoch p.author p.b
      else return_nil

unfoldable pub handle_proposal : Services → Proposal → M (Unit {0})
unfolding commit_leader commit_block store_block get_cbc_instance
handle_proposal sv p = do
  c ← core
  if message_filter c p.epoch then return_nil else do
    late_block p
    store_block sv p.b
    start_cbc p.epoch p.author data_cbc (CbcTask.proposal p)

unfoldable pub handle_ready : Ready → M (Unit {0})
unfolding get_cbc_instance
handle_ready r = do
  c ← core
  if message_filter c r.epoch
      then return_nil
      else start_cbc r.epoch r.proposer r.tag (CbcTask.ready r)

unfoldable pub handle_final : Final → M (Unit {0})
unfolding get_cbc_instance
handle_final f = do
  c ← core
  if message_filter c f.epoch
      then return_nil
      else start_cbc f.epoch f.author f.tag (CbcTask.final f)

unfoldable pub handle_commitment : Commitment → M (Unit {0})
unfolding get_cbc_instance
handle_commitment m = do
  c ← core
  if message_filter c m.epoch
      then return_nil
      else start_cbc m.epoch m.author commit_cbc (CbcTask.commitment m)

-- The others get a copy of the slice of finished broadcasts; the node itself keeps on using the slice.
abbrev pub tell_commitment : Int64 → M (Unit {0})
tell_commitment epoch = do
  c ← core
  let m = new_commitment c.sig_service c.name (some (Slice.shared epoch)) epoch
  emit (
      send c.name no_node
        (Messgae.commitment (record m { c = some (Slice.own (slice_of c (Slice.shared epoch))) }))
      ∷ loopback (Messgae.commitment m)
      ∷ [])

abbrev pub tell_elect_share : Int64 → M (Unit {0})
tell_elect_share epoch = do
  c ← core
  tell (Messgae.elect_share (new_elect_share c.sig_service c.name epoch))

-- 2f + 1 broadcasts of one kind have finished.
abbrev pub on_quorum : Int64 → Uint8 → M (Unit {0})
on_quorum epoch tag =
    if tag == data_cbc
    then tell_commitment epoch
    else if tag == commit_cbc
    then tell_elect_share epoch
    else return_nil

unfoldable pub process_cbc_back : CbcBack → M (Unit {0})
unfolding add_finals add_commitment new_commitment new_elect_share
process_cbc_back b = do
  c ← core
  if message_filter c b.epoch then return_nil else do
    cnt ← add_finals b.epoch b.tag b.author
    (if b.tag == commit_cbc
        then modify (add_commitment b.epoch b.author b.commitment)
        else return_nil)
    if cnt == hight_threshold c.committee then on_quorum b.epoch b.tag else return_nil

-- The elector's answer, with the elector put back first.
abbrev pub elected : Services → ElectShare → M Bool
elected sv share c =
    let (r, e) = add_elect_share sv.shuffle c.elector share in (r, record c { elector = e }, [])

-- The second stage is that of the node's own epoch.
unfoldable pub handle_elect_share : Services → ElectShare → M (Unit {0})
unfolding add_elect_share invoke_stage_two
handle_elect_share sv share = do
  c ← core
  if message_filter c share.epoch
      then return_nil
      else do flag ← elected sv share; if flag then invoke_stage_two c.epoch 0 else return_nil

-- An aggregator's answer, with the aggregator put back first.
abbrev pub aggregated : {A : Type 0} → (Aggreator → Outcome A × Aggreator) → M A
aggregated f c = let (r, a) = f c.aggreator in (r, record c { aggreator = a }, [])

abbrev pub count_vote : Vote → M (Unit {0})
count_vote v = do
  flag ← aggregated (λ a. add_vote a v)
  if not (flag == action_no)
      then invoke_aba_val v.leader v.epoch v.round 0
          (if flag == action_one then flag_yes else flag_no)
      else return_nil

unfoldable pub handle_vote : Vote → M (Unit {0})
unfolding check_vote add_vote invoke_aba_val
handle_vote v = do
  c ← core
  if message_filter c v.epoch then return_nil else do
    contradicted ← lift (check_vote c v)
    if contradicted then lift (err (err_other 1)) else count_vote v

unfoldable pub handle_aba_val : AbaVal → M (Unit {0})
unfolding get_aba_instance
handle_aba_val m = do
  c ← core
  if message_filter c m.epoch then return_nil else start_aba m.epoch m.round (AbaTask.val m)

unfoldable pub handle_aba_mux : AbaMux → M (Unit {0})
unfolding get_aba_instance
handle_aba_mux m = do
  c ← core
  if message_filter c m.epoch then return_nil else start_aba m.epoch m.round (AbaTask.mux m)

abbrev pub on_coin : CoinShare → Option Uint8 → M (Unit {0})
on_coin m none = return_nil
on_coin m (some coin) = start_aba m.epoch m.round (AbaTask.coin m.in_round coin m.leader)

unfoldable pub handle_coin_share : CoinShare → M (Unit {0})
unfolding add_coin_share get_aba_instance
handle_coin_share m = do
  c ← core
  if message_filter c m.epoch
      then return_nil
      else do coin ← aggregated (λ a. add_coin_share a m); on_coin m coin

unfoldable pub handle_aba_halt : AbaHalt → M (Unit {0})
unfolding get_aba_instance
handle_aba_halt m = do
  c ← core
  if message_filter c m.epoch then return_nil else start_aba m.epoch m.round (AbaTask.halt m)
