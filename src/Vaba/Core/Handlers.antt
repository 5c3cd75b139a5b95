-- ===== src/Vaba/Core/Handlers.antt =====
-- core/vaba/consensus/core.go: the handlers of the eight messages.
use bft_mvba.Methods.{core, emit, lift, modify, return_nil, ◌>>=◌, ◌>>◌}
use bft_mvba.Base.{
  not, ◌&&◌, [], ◌∷◌, Option, none, some, Outcome, panic, if◌then◌else◌, ◌==◌, Int64, inc, slt, put,
}
use bft_mvba.Committee.{NodeId, no_node, hight_threshold}
use bft_mvba.Crypto.{Digest}
use bft_mvba.Vaba.Messages.{
  Block, Proposal, Vote, Done, SkipShare, Skip, ElectShare, ViewChange, Halt, Messgae,
  new_skip_share, new_halt, phase_one_falg,
}
use bft_mvba.Vaba.Effects.{go_proposal, go_vote}
use bft_mvba.Vaba.Aggreator.{Aggreator, add_done_vote, add_skip_vote}
use bft_mvba.Vaba.Elector
use bft_mvba.Vaba.Elector.{add_share_vote}
use bft_mvba.Vaba.Core.State.{
  Services, M, message_filter, store_block, get_pb_instance, commit_call, is_skip,
}
use bft_mvba.Vaba.Core.Epochs.{
  tell, tell_others, skip_on, invoke_view_change, output_block, set_committed, advance_next_epoch,
  ignore_error,
}

-- A block of an epoch that is decided is committed if the epoch's leader proposed it.
abbrev pub late_block : Proposal → M (Unit {0})
late_block p = do
  c ← core
  if p.phase == phase_one_falg
        && c.commit_flag p.epoch
        && Elector.leader c.elector p.epoch == p.author
      then commit_call p.b
      else return_nil

abbrev pub start_proposal : Proposal → M (Unit {0})
start_proposal p = do
  pb ← get_pb_instance p.epoch p.author
  emit (go_proposal p.epoch p.author p ∷ [])

-- What follows on a proposal of the present or a later epoch.
abbrev pub accept_proposal : Services → Proposal → M (Unit {0})
accept_proposal sv p =
    if p.phase == phase_one_falg
    then (do
      store_block sv p.b
      c ← core
      if slt p.epoch c.lock then return_nil else start_proposal p)
    else start_proposal p

unfoldable pub handle_proposal : Services → Proposal → M (Unit {0})
unfolding commit_call store_block get_pb_instance
handle_proposal sv p = do
  late_block p
  c ← core
  if message_filter c p.epoch then return_nil else accept_proposal sv p

unfoldable pub handle_vote : Vote → M (Unit {0})
unfolding get_pb_instance
handle_vote v = do
  c ← core
  if message_filter c v.epoch
      then return_nil
      else do pb ← get_pb_instance v.epoch v.proposer; emit (go_vote v.epoch v.proposer v ∷ [])

-- An aggregator's answer, with the aggregator put back first.
abbrev pub aggregated : {A : Type 0} → (Aggreator → Outcome A × Aggreator) → M A
aggregated f c = let (r, a) = f c.aggreator in (r, record c { aggreator = a }, [])

unfoldable pub handle_done : Done → M (Unit {0})
unfolding add_done_vote
handle_done d = do
  c ← core
  if message_filter c d.epoch then return_nil else do
    full ← aggregated (λ a. add_done_vote a d)
    if full
        then tell (Messgae.skip_share (new_skip_share c.sig_service c.name d.epoch))
        else return_nil

unfoldable pub handle_skip_share : SkipShare → M (Unit {0})
unfolding add_skip_vote skip_on
handle_skip_share s = do
  c ← core
  if message_filter c s.epoch then return_nil else do
    full ← aggregated (λ a. add_skip_vote a s)
    if full then skip_on s.epoch else return_nil

unfoldable pub handle_skip : Skip → M (Unit {0})
unfolding is_skip skip_on
handle_skip s = do
  c ← core
  if message_filter c s.epoch
      then return_nil
      else if not (is_skip c s.epoch)
      then skip_on s.epoch
      else return_nil

abbrev pub elected : ElectShare → M NodeId
elected share c = let (r, e) = add_share_vote c.elector share in (r, record c { elector = e }, [])

unfoldable pub handle_elect_share : ElectShare → M (Unit {0})
unfolding add_share_vote invoke_view_change
handle_elect_share share = do
  c ← core
  if message_filter c share.epoch then return_nil else do
    node ← elected share
    if not (node == no_node) then invoke_view_change share.epoch node else return_nil

abbrev pub tell_halt : NodeId → Digest → Int64 → M (Unit {0})
tell_halt node d epoch = do
  c ← core
  tell_others (Messgae.halt (new_halt c.sig_service c.name node d epoch))

-- The end of an epoch with a block: `*v.BlockHash` of a view change panics on nil.
abbrev pub finish_epoch : Services → Int64 → NodeId → Option Digest → M (Unit {0})
finish_epoch sv epoch node none = lift panic
finish_epoch sv epoch node (some d) = do
  output_block sv epoch d
  set_committed epoch
  tell_halt node d epoch
  ignore_error (advance_next_epoch sv (inc epoch) none)

-- `&Block{Epoch: v.Epoch, Batch: pool.Batch{}}`
abbrev pub empty_block : Int64 → Block
empty_block epoch = record { proposer = 0; batch = record { id = 0; txs = [] }; epoch = epoch }

-- The view change that completes a quorum without a commit.
abbrev pub give_up_epoch : Services → ViewChange → M (Unit {0})
give_up_epoch sv v = do
  c ← core
  if not (c.commit_flag v.epoch) && c.view_change_cnts v.epoch == hight_threshold c.committee
      then (do
        set_committed v.epoch
        commit_call (some (empty_block v.epoch))
        ignore_error (advance_next_epoch sv (inc v.epoch) v.block_hash))
      else return_nil

abbrev pub keep_lock : ViewChange → M (Unit {0})
keep_lock v = do
  c ← core
  if v.is_lock && not (slt v.epoch c.lock)
      then modify (λ c. record c { lock = v.epoch })
      else return_nil

abbrev pub count_view_change : Int64 → M (Unit {0})
count_view_change epoch = modify (λ c. record c {
  view_change_cnts = put c.view_change_cnts epoch (inc (c.view_change_cnts epoch));
})

unfoldable pub handle_view_change : Services → ViewChange → M (Unit {0})
unfolding output_block advance_next_epoch commit_call
handle_view_change sv v = do
  c ← core
  if message_filter c v.epoch then return_nil else if c.commit_flag v.epoch then return_nil else do
    count_view_change v.epoch
    (if v.is_commit then finish_epoch sv v.epoch v.leader v.block_hash else return_nil)
    keep_lock v
    give_up_epoch sv v

unfoldable pub handle_halt : Services → Halt → M (Unit {0})
unfolding output_block advance_next_epoch
handle_halt sv h = do
  c ← core
  if message_filter c h.epoch
      then return_nil
      else if c.commit_flag h.epoch
      then return_nil
      else finish_epoch sv h.epoch h.leader (some h.block_hash)
