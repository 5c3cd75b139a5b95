-- ===== src/Smvba/Core/Handlers.antt =====
-- core/smvba/consensus/core.go: the handlers of the eight messages.
use bft_mvba.Methods.{core, emit, lift, modify, return_nil, ◌>>=◌, ◌>>◌}
use bft_mvba.Base.{
  true, not, ◌&&◌, List, [], ◌∷◌, Option, none, some, Outcome, ok, err, panic, if◌then◌else◌, ◌==◌,
  Int8, Int64, inc, put, put2, put3,
}
use bft_mvba.Committee.{NodeId, no_node}
use bft_mvba.Smvba.Messages.{
  Block, vote_flag_yes, vote_flag_no, spb_one_phase, SpbProposal, SpbVote, Prevote, FinVote, Halt,
  Done, Finish, ElectShare,
}
use bft_mvba.Smvba.Signing.{Messgae, new_halt, new_fin_vote}
use bft_mvba.Smvba.Effects.{Effect, go_proposal, go_vote}
use bft_mvba.Smvba.Aggreator.{
  Aggreator, add_finish_vote, add_done_vote, add_pre_vote, add_fin_vote, action_no, action_yes,
  action_commit, done_low_flag, done_high_flag,
}
use bft_mvba.Smvba.Elector
use bft_mvba.Smvba.Elector.{set_leader, add_share_vote}
use bft_mvba.Smvba.Core.State.{
  Services, Core, M, message_filter, store_block, get_spb_instance, commit_block,
}
use bft_mvba.Smvba.Core.Rounds.{
  tell, invoke_done_and_share, process_leader, advance_next_round, handle_output,
  advance_next_epoch,
}

-- What reads through a nil block panics.
abbrev pub with_block : Option Block → (Block → M (Unit {0})) → M (Unit {0})
with_block none f = lift panic
with_block (some b) f = f b

-- A block of an epoch that is over is committed if its round's leader proposed it.
abbrev pub late_block : SpbProposal → M (Unit {0})
late_block p = do
  c ← core
  if p.phase == spb_one_phase
        && c.halt_flags p.epoch
        && Elector.leader c.elector p.epoch p.round == p.author
      then with_block p.b commit_block
      else return_nil

-- What follows on a proposal of the present or a later epoch.
abbrev pub accept_proposal : Services → SpbProposal → M (Unit {0})
accept_proposal sv p = do
  (if p.phase == spb_one_phase then with_block p.b (store_block sv) else return_nil)
  spb ← get_spb_instance p.epoch p.round p.author
  emit (go_proposal p.epoch p.round p.author p ∷ [])

unfoldable pub handle_spb_proposal : Services → SpbProposal → M (Unit {0})
unfolding commit_block store_block get_spb_instance
handle_spb_proposal sv p = do
  late_block p
  c ← core
  if message_filter c p.epoch then return_nil else accept_proposal sv p

unfoldable pub handle_spb_vote : SpbVote → M (Unit {0})
unfolding get_spb_instance
handle_spb_vote v = do
  c ← core
  if message_filter c v.epoch then return_nil else do
    spb ← get_spb_instance v.epoch v.round v.proposer
    emit (go_vote v.epoch v.round v.proposer v ∷ [])

-- An aggregator's answer, with the aggregator put back first.
abbrev pub aggregated : {A : Type 0} → (Aggreator → Outcome A × Aggreator) → M A
aggregated f c = let (r, a) = f c.aggreator in (r, record c { aggreator = a }, [])

unfoldable pub handle_finish : Finish → M (Unit {0})
unfolding add_finish_vote invoke_done_and_share
handle_finish f = do
  c ← core
  if message_filter c f.epoch then return_nil else do
    flag ← aggregated (λ a. add_finish_vote a f)
    modify (λ c. record c {
      finish_flags = put3 c.finish_flags f.epoch f.round f.author (some f.block_hash);
    })
    if flag then invoke_done_and_share f.epoch f.round else return_nil

abbrev pub on_ready : Int64 → Int64 → M (Unit {0})
on_ready epoch round = do
  modify (λ c. record c { ready_flags = put2 c.ready_flags epoch round true })
  process_leader epoch round

abbrev pub on_done : Done → Int8 → M (Unit {0})
on_done d flag =
    if flag == done_low_flag
    then invoke_done_and_share d.epoch d.round
    else if flag == done_high_flag
    then on_ready d.epoch d.round
    else return_nil

unfoldable pub handle_done : Done → M (Unit {0})
unfolding add_done_vote invoke_done_and_share process_leader
handle_done d = do
  c ← core
  if message_filter c d.epoch
      then return_nil
      else do flag ← aggregated (λ a. add_done_vote a d); on_done d flag

abbrev pub elected : ElectShare → M NodeId
elected share c = let (r, e) = add_share_vote c.elector share in (r, record c { elector = e }, [])

-- A result that nobody looks at; a panic is not a result.
abbrev pub ignore_error : M (Unit {0}) → M (Unit {0})
ignore_error m c = forget (m c)
  where
    forget : Outcome (Unit {0}) × Core × List Effect → Outcome (Unit {0}) × Core × List Effect
    forget (ok u, c, es) = (ok tt, c, es)
    forget (err _, c, es) = (ok tt, c, es)
    forget (panic, c, es) = (panic, c, es)

abbrev pub on_elected : ElectShare → NodeId → M (Unit {0})
on_elected share leader =
    if not (leader == no_node)
    then ignore_error (process_leader share.epoch share.round)
    else return_nil

unfoldable pub handle_elect_share : ElectShare → M (Unit {0})
unfolding add_share_vote process_leader
handle_elect_share share = do
  c ← core
  if message_filter c share.epoch
      then return_nil
      else do leader ← elected share; on_elected share leader

abbrev pub tell_fin_vote : Prevote → Int8 → M (Unit {0})
tell_fin_vote pv flag c =
    tell
      (Messgae.fin_vote
        (new_fin_vote c.sig_service c.name pv.leader pv.epoch pv.round flag pv.block_hash))
      c

abbrev pub on_prevote : Prevote → Int8 → M (Unit {0})
on_prevote pv flag =
    if flag == action_no
    then tell_fin_vote pv vote_flag_no
    else if flag == action_yes
    then tell_fin_vote pv vote_flag_yes
    else return_nil

unfoldable pub handle_prevote : Prevote → M (Unit {0})
unfolding add_pre_vote
handle_prevote pv = do
  c ← core
  if message_filter c pv.epoch
      then return_nil
      else do flag ← aggregated (λ a. add_pre_vote a pv); on_prevote pv flag

abbrev pub tell_halt : FinVote → M (Unit {0})
tell_halt fv c =
    tell (Messgae.halt (new_halt c.sig_service c.name fv.leader fv.block_hash fv.epoch fv.round)) c

abbrev pub on_fin_vote : Services → FinVote → Int8 → M (Unit {0})
on_fin_vote sv fv flag =
    if flag == action_yes
    then advance_next_round sv fv.epoch fv.round flag fv.block_hash
    else if flag == action_no
    then advance_next_round sv fv.epoch fv.round flag 0
    else if flag == action_commit
    then tell_halt fv
    else return_nil

unfoldable pub handle_finvote : Services → FinVote → M (Unit {0})
unfolding add_fin_vote advance_next_round
handle_finvote sv fv = do
  c ← core
  if message_filter c fv.epoch
      then return_nil
      else do flag ← aggregated (λ a. add_fin_vote a fv); on_fin_vote sv fv flag

abbrev pub set_chosen : Halt → M (Unit {0})
set_chosen h = modify (λ c. record c { elector = set_leader c.elector h.epoch h.round h.leader })

abbrev pub set_halted : Int64 → M (Unit {0})
set_halted epoch = modify (λ c. record c { halt_flags = put c.halt_flags epoch true })

unfoldable pub handle_halt : Services → Halt → M (Unit {0})
unfolding set_leader handle_output advance_next_epoch
handle_halt sv h = do
  c ← core
  if message_filter c h.epoch then return_nil else if c.halt_flags h.epoch then return_nil else do
    set_chosen h
    handle_output sv h.epoch h.block_hash
    set_halted h.epoch
    advance_next_epoch (inc h.epoch)
