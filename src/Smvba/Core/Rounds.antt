-- ===== src/Smvba/Core/Rounds.antt =====
-- core/smvba/consensus/core.go: what the handlers call to go on, to the leader of a round, to the next
-- round and to the next epoch.
use bft_mvba.Methods.{core, emit, lift, modify, pure, return_nil, ◌>>=◌, ◌>>◌}
use bft_mvba.Base.{
  true, not, [], ◌∷◌, Option, none, some, Outcome, ok, err, panic, if◌then◌else◌, ◌==◌, Int8, Int64,
  slt, inc, put2,
}
use bft_mvba.Committee.{NodeId, no_node}
use bft_mvba.Crypto.{Digest}
use bft_mvba.Pool
use bft_mvba.Smvba.Messages.{Block, vote_flag_yes, vote_flag_no, spb_one_phase}
use bft_mvba.Smvba.Signing.{
  Messgae, new_done, new_elect_share, new_halt, new_prevote, new_spb_proposal,
}
use bft_mvba.Smvba.Effects.{send, loopback, tell_all}
use bft_mvba.Smvba.Aggreator.{action_no}
use bft_mvba.Smvba.Elector
use bft_mvba.Smvba.Elector.{set_leader}
use bft_mvba.Smvba.Spb.{Spb, is_lock, get_block_hash}
use bft_mvba.Smvba.Core.State.{
  Services, Core, M, message_filter, get_block, get_spb_instance, has_finish, has_ready, has_done,
  generator_block, commit_block,
}

-- `Transimtor.Send` to everybody, and the copy into the own channel.
abbrev pub tell : Messgae → M (Unit {0})
tell m c = emit (tell_all c.identity m) c

-- Both messages are sent before either is put into the own channel.
abbrev pub tell_both : Messgae → Messgae → M (Unit {0})
tell_both m k c =
    emit (send c.name no_node m ∷ send c.name no_node k ∷ loopback m ∷ loopback k ∷ []) c

unfoldable pub invoke_done_and_share : Int64 → Int64 → M (Unit {0})
unfolding has_done
invoke_done_and_share epoch round = do
  c ← core
  if has_done c epoch round then return_nil else do
    tell_both (Messgae.done (new_done c.sig_service c.name epoch round))
        (Messgae.elect_share (new_elect_share c.sig_service c.name epoch round))
    modify (λ c. record c { done_flags = put2 c.done_flags epoch round true })

-- The prevote on a leader whose broadcast has not finished here.
abbrev pub tell_prevote : NodeId → Int64 → Int64 → Int8 → Digest → M (Unit {0})
tell_prevote leader epoch round flag d c =
    tell (Messgae.prevote (new_prevote c.sig_service c.name leader epoch round flag d)) c

abbrev pub prevote_yes : NodeId → Int64 → Int64 → Option Digest → M (Unit {0})
prevote_yes leader epoch round none = lift panic
prevote_yes leader epoch round (some d) = tell_prevote leader epoch round vote_flag_yes d

abbrev pub prevote_on : NodeId → Int64 → Int64 → Spb → M (Unit {0})
prevote_on leader epoch round spb =
    if is_lock spb
    then prevote_yes leader epoch round (get_block_hash spb)
    else tell_prevote leader epoch round vote_flag_no 0

-- What follows when the leader is known and the round is ready.
abbrev pub on_leader : NodeId → Int64 → Int64 → Option Digest → M (Unit {0})
on_leader leader epoch round (some d) = do
  c ← core
  tell (Messgae.halt (new_halt c.sig_service c.name leader d epoch round))
on_leader leader epoch round none = do
  spb ← get_spb_instance epoch round leader
  prevote_on leader epoch round spb

-- `Leader`, `hasReady` and `hasFinish` read the state that the method was called in.
abbrev pub on_ready_round : Core → Int64 → Int64 → NodeId → M (Unit {0})
on_ready_round c epoch round leader =
    if not (leader == no_node)
    then on_leader leader epoch round (has_finish c epoch round leader)
    else return_nil

unfoldable pub process_leader : Int64 → Int64 → M (Unit {0})
unfolding has_ready has_finish get_spb_instance is_lock get_block_hash
process_leader epoch round = do
  c ← core
  if has_ready c epoch round
      then on_ready_round c epoch round (Elector.leader c.elector epoch round)
      else return_nil

abbrev pub own_hash : Int64 → Int64 → Digest → M Digest
own_hash epoch round d = do
  c ← core
  own ← get_spb_instance epoch round c.name
  pure (elim (get_block_hash own) [ none ↦ d | some own_block ↦ own_block ])

-- The hash that the next round's block is looked up by: after a vote for no, the node's own.
abbrev pub next_hash : Int64 → Int64 → Int8 → Digest → M Digest
next_hash epoch round flag d = if flag == action_no then own_hash epoch round d else pure d

abbrev pub block_or_new : Int64 → Option Block → M Block
block_or_new epoch (some b) = pure b
block_or_new epoch none = generator_block epoch

abbrev pub fetch_block : Services → Digest → M (Option Block)
fetch_block sv d c = (get_block sv c d, c, [])

unfoldable pub advance_next_round : Services → Int64 → Int64 → Int8 → Digest → M (Unit {0})
unfolding get_spb_instance get_block generator_block get_block_hash
advance_next_round sv epoch round flag d = do
  c ← core
  if message_filter c epoch then return_nil else do
    hash ← next_hash epoch round flag d
    found ← fetch_block sv hash
    b ← block_or_new epoch found
    tell (
        Messgae.spb_proposal
          (new_spb_proposal c.sig_service c.name (some b) epoch (inc round) spb_one_phase))

abbrev pub put_back_found : Outcome (Option Block) → M (Unit {0})
put_back_found (ok none) c = (ok tt, c, [])
put_back_found (ok (some b)) c =
    (ok tt, record c { tx_pool = Pool.put_batch c.tx_pool b.batch }, [])
put_back_found (err _) c = (ok tt, c, [])
put_back_found panic c = (panic, c, [])

-- The node's own block of the epoch goes back into the pool, if another one's was decided.
abbrev pub put_back_own : Services → Int64 → M (Unit {0})
put_back_own sv epoch = do
  c ← core
  own ← get_spb_instance epoch 0 c.name
  elim (get_block_hash own) [
    | none ↦ return_nil
    | some d ↦ λ c. put_back_found (get_block sv c d) c
  ]

abbrev pub output_block : Services → Int64 → Option Block → M (Unit {0})
output_block sv epoch none = return_nil
output_block sv epoch (some b) = do
  commit_block b
  c ← core
  if not (b.proposer == c.name) then put_back_own sv epoch else return_nil

unfoldable pub handle_output : Services → Int64 → Digest → M (Unit {0})
unfolding get_block get_spb_instance get_block_hash commit_block
handle_output sv epoch d = do found ← fetch_block sv d; output_block sv epoch found

unfoldable pub advance_next_epoch : Int64 → M (Unit {0})
unfolding generator_block
advance_next_epoch epoch = do
  c ← core
  if not (slt c.epoch epoch) then return_nil else do
    modify (λ c. record c { epoch = epoch })
    b ← generator_block epoch
    tell (
        Messgae.spb_proposal (new_spb_proposal c.sig_service c.name (some b) epoch 0 spb_one_phase))
