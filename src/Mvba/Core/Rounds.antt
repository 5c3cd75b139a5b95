-- ===== src/Mvba/Core/Rounds.antt =====
-- core/mvba/consensus/core.go: what the handlers call.
use bft_mvba.Methods.{◌>>=◌, ◌>>◌, return_nil, lift, core, modify}
use bft_mvba.Base.{
  Bool, true, not, List, [], get_elem?, Option, none, some, Outcome, ok, err, panic, if◌then◌else◌,
  ◌==◌, Int64, slt, inc,
}
use bft_mvba.Committee.{NodeId}
use bft_mvba.Crypto.{Digest}
use bft_mvba.Mvba.Messages.{
  Uint8, flag_yes, flag_no, Block, Messgae, new_proposal, new_vote, new_aba_val,
}
use bft_mvba.Mvba.Effects.{tell_all, data_cbc, AbaBack, aba_invoke, aba_halted}
use bft_mvba.Mvba.Elector.{leader}
use bft_mvba.Mvba.Core.State.{
  Services, M, get_block, get_cbc_instance, is_invoke_aba, set_invoke_aba, generate_block,
  commit_block, put_batch,
}

abbrev pub tell : Messgae → M (Unit {0})
tell m c = (ok tt, c, tell_all c.identity m)

-- A new proposal around the block goes to everybody.
abbrev pub propose : Block → M (Unit {0})
propose b = do
  c ← core
  p ← lift (new_proposal c.sig_service c.name (some b) c.epoch)
  tell (Messgae.proposal p)

-- `commitment == nil || !commitment[leader]`, which panics out of range.
abbrev pub unfinished : Option (List Bool) → NodeId → Outcome Bool
unfinished none node = ok true
unfinished (some bs) node = elim (get_elem? bs node) [ none ↦ panic | some b ↦ ok (not b) ]

unfoldable pub invoke_stage_two : Int64 → Int64 → M (Unit {0})
unfolding leader new_vote
invoke_stage_two epoch round = do
  c ← core
  l ← lift (leader c.elector epoch round)
  refuse ← lift (unfinished (c.cbc_final_indexs epoch) l)
  tell (
      Messgae.vote
        (new_vote c.sig_service c.name l epoch round (if refuse then flag_no else flag_yes)))

unfoldable pub invoke_aba_val : NodeId → Int64 → Int64 → Int64 → Uint8 → M (Unit {0})
unfolding is_invoke_aba new_aba_val
invoke_aba_val l epoch round in_round flag = do
  c ← core
  if is_invoke_aba c epoch round in_round flag then return_nil else do
    modify (λ c. set_invoke_aba c epoch round in_round flag)
    tell (Messgae.aba_val (new_aba_val c.sig_service c.name l epoch round in_round flag))

unfoldable pub abvance_next_epoch : Int64 → M (Unit {0})
unfolding generate_block new_proposal
abvance_next_epoch epoch = do
  c ← core
  if not (slt c.epoch epoch)
      then return_nil
      else do modify (λ c. record c { epoch = epoch }); b ← generate_block epoch; propose b

-- The node's own batch goes back into the pool, where its block is there and can be read.
abbrev pub put_back : Services → Option Digest → M (Unit {0})
put_back sv none c = (ok tt, c, [])
put_back sv (some d) c = put_read (get_block sv c d) c
  where
    put_read : Outcome Block → M (Unit {0})
    put_read (ok b) c = put_batch b.batch c
    put_read (err _) c = (ok tt, c, [])
    put_read panic c = (panic, c, [])

abbrev pub put_back_own : Services → Int64 → Block → M (Unit {0})
put_back_own sv epoch b = do
  c ← core
  if b.proposer == c.name
      then return_nil
      else do own ← get_cbc_instance epoch c.name data_cbc; put_back sv own.block_hash

-- A block that cannot be read is a nil for the commitor.
abbrev pub output_block : Services → Int64 → NodeId → Outcome Block → M (Unit {0})
output_block sv epoch l (ok b) = do commit_block epoch l (some b); put_back_own sv epoch b
output_block sv epoch l (err _) = commit_block epoch l none
output_block sv epoch l panic = lift panic

abbrev pub output_hash : Services → Int64 → NodeId → Option Digest → M (Unit {0})
output_hash sv epoch l none = return_nil
output_hash sv epoch l (some d) = λ c. output_block sv epoch l (get_block sv c d) c

unfoldable pub handle_output : Services → Int64 → NodeId → M (Unit {0})
unfolding get_cbc_instance get_block commit_block abvance_next_epoch
handle_output sv epoch l = do
  cbc ← get_cbc_instance epoch l data_cbc
  output_hash sv epoch l cbc.block_hash
  abvance_next_epoch (inc epoch)

unfoldable pub process_aba_back : Services → AbaBack → M (Unit {0})
unfolding invoke_aba_val invoke_stage_two handle_output
process_aba_back sv b =
    if b.typ == aba_invoke
    then invoke_aba_val b.leader b.epoch b.ex_round b.in_round b.flag
    else if b.typ == aba_halted
    then (if b.flag == flag_no
        then invoke_stage_two b.epoch (inc b.ex_round)
        else if b.flag == flag_yes
        then handle_output sv b.epoch b.leader
        else return_nil)
    else return_nil
