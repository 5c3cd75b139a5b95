-- ===== src/Vaba/Core/Epochs.antt =====
-- core/vaba/consensus/core.go: what the handlers call to go on, to the election, to the view change and
-- to the next epoch.
use bft_mvba.Methods.{core, emit, modify, pure, return_nil, ◌>>=◌, ◌>>◌}
use bft_mvba.Base.{
  true, not, [], ◌∷◌, List, Option, none, some, Outcome, ok, err, panic, if◌then◌else◌, ◌==◌, Int64,
  slt, put,
}
use bft_mvba.Committee.{NodeId, no_node}
use bft_mvba.Crypto.{Digest}
use bft_mvba.Pool
use bft_mvba.Vaba.Messages.{
  Block, Messgae, new_proposal, new_skip, new_elect_share, new_view_change, phase_one_falg,
}
use bft_mvba.Vaba.Effects.{Effect, send, tell_all}
use bft_mvba.Vaba.Elector
use bft_mvba.Vaba.Elector.{Elector, set_leader}
use bft_mvba.Vaba.Promote.{Promote, get_block_hash, is_key, is_lock, is_commit}
use bft_mvba.Vaba.Core.State.{
  Services, Core, M, get_block, get_pb_instance, generator_block, commit_call, set_skip,
}

-- `Transimtor.Send` to everybody, and the copy into the own channel.
abbrev pub tell : Messgae → M (Unit {0})
tell m c = emit (tell_all c.name m) c

-- `Transimtor.Send` to everybody else.
abbrev pub tell_others : Messgae → M (Unit {0})
tell_others m c = emit (send c.name no_node m ∷ []) c

unfoldable pub invoke_elect : Int64 → M (Unit {0})
invoke_elect epoch = do
  c ← core
  if c.elect_flag epoch then return_nil else do
    modify (λ c. record c { elect_flag = put c.elect_flag epoch true })
    tell (Messgae.elect_share (new_elect_share c.sig_service c.name epoch))

-- What a node does on seeing that enough promotions of the epoch are done.
unfoldable pub skip_on : Int64 → M (Unit {0})
unfolding set_skip invoke_elect
skip_on epoch = do
  set_skip epoch
  c ← core
  tell_others (Messgae.skip (new_skip c.sig_service c.name epoch))
  invoke_elect epoch

abbrev pub keep_leader : Int64 → NodeId → Elector → Elector
keep_leader epoch node e = if Elector.leader e epoch == no_node then set_leader e epoch node else e

abbrev pub tell_view_change : Int64 → NodeId → Promote → M (Unit {0})
tell_view_change epoch node pb = do
  c ← core
  tell (
      Messgae.view_change (
        new_view_change c.sig_service c.name node epoch (get_block_hash pb) (is_commit pb)
          (is_lock pb) (is_key pb)))

unfoldable pub invoke_view_change : Int64 → NodeId → M (Unit {0})
unfolding get_pb_instance set_leader get_block_hash is_key is_lock is_commit
invoke_view_change epoch node = do
  c ← core
  if c.view_change_flag epoch then return_nil else do
    modify (λ c. record c {
      view_change_flag = put c.view_change_flag epoch true;
      elector = keep_leader epoch node c.elector;
    })
    pb ← get_pb_instance epoch node
    tell_view_change epoch node pb

abbrev pub fetch_block : Services → Digest → M (Option Block)
fetch_block sv d c = (get_block sv c d, c, [])

-- `if block, err := c.GetBlock(…); err == nil && block != nil`: an error is as good as no block.
abbrev pub found_or_nil : Outcome (Option Block) → Outcome (Option Block)
found_or_nil (ok b) = ok b
found_or_nil (err _) = ok none
found_or_nil panic = panic

abbrev pub try_block : Services → Digest → M (Option Block)
try_block sv d c = (found_or_nil (get_block sv c d), c, [])

abbrev pub put_back : Option Block → M (Unit {0})
put_back none = return_nil
put_back (some b) = modify (λ c. record c { tx_pool = Pool.put_batch c.tx_pool b.batch })

-- The node's own block of the epoch goes back into the pool, if another one's was decided.
abbrev pub put_back_hash : Services → Option Digest → M (Unit {0})
put_back_hash sv none = return_nil
put_back_hash sv (some d) = do found ← try_block sv d; put_back found

abbrev pub put_back_own : Services → Int64 → M (Unit {0})
put_back_own sv epoch = do
  c ← core
  own ← get_pb_instance epoch c.name
  put_back_hash sv (get_block_hash own)

abbrev pub output_found : Services → Int64 → Option Block → M (Unit {0})
output_found sv epoch none = return_nil
output_found sv epoch (some b) = do
  commit_call (some (record b { epoch = epoch }))
  c ← core
  if not (b.proposer == c.name) then put_back_own sv epoch else return_nil

-- The lines that a view change and a halt share: the block is committed under the epoch at hand.
unfoldable pub output_block : Services → Int64 → Digest → M (Unit {0})
unfolding get_block get_pb_instance get_block_hash commit_call
output_block sv epoch d = do found ← try_block sv d; output_found sv epoch found

abbrev pub set_committed : Int64 → M (Unit {0})
set_committed epoch = modify (λ c. record c { commit_flag = put c.commit_flag epoch true })

abbrev pub block_or_new : Int64 → Option Block → M Block
block_or_new epoch (some b) = pure b
block_or_new epoch none = generator_block epoch

abbrev pub next_block : Services → Int64 → Option Digest → M Block
next_block sv epoch none = generator_block epoch
next_block sv epoch (some d) = do found ← fetch_block sv d; block_or_new epoch found

-- An error in the search for the block is returned after the epoch is set.
unfoldable pub advance_next_epoch : Services → Int64 → Option Digest → M (Unit {0})
unfolding get_block generator_block
advance_next_epoch sv epoch hash = do
  c ← core
  if not (slt c.epoch epoch) then return_nil else do
    modify (λ c. record c { epoch = epoch })
    b ← next_block sv epoch hash
    tell (Messgae.proposal (new_proposal c.sig_service c.name epoch phase_one_falg (some b)))

-- A result that nobody looks at; a panic is not a result.
abbrev pub ignore_error : M (Unit {0}) → M (Unit {0})
ignore_error m c = forget (m c)
  where
    forget : Outcome (Unit {0}) × Core × List Effect → Outcome (Unit {0}) × Core × List Effect
    forget (ok u, c, es) = (ok tt, c, es)
    forget (err _, c, es) = (ok tt, c, es)
    forget (panic, c, es) = (panic, c, es)
