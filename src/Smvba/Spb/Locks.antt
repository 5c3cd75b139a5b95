-- ===== src/Smvba/Spb/Locks.antt =====
-- core/smvba/consensus/spb.go: the block of an instance is fixed, and a lock implies a block.
use bft_mvba.Methods.{Identity}
use bft_mvba.Base.{List, none, some, ok, ◌≡◌, ◌≢◌, true, Int64, arith}
use bft_mvba.Crypto.{Digest}
use bft_mvba.Committee.{NodeId}
use bft_mvba.Smvba.Effects.{Effect}
use bft_mvba.Smvba.Spb.Defs.{Spb, new_spb, process_proposal, process_vote, is_lock, get_block_hash}
use bft_mvba.Smvba.Spb.Runs.{Task, proposal, vote, run_task, Reaches, start, later}

task_keeps :
    (n : Identity) (s u : Spb) (k : Task) (out : List Effect)
    → run_task n s k ≡ ok (u, out)
    → (is_lock s ≡ true → get_block_hash s ≢ none)
    → (is_lock u ≡ true → get_block_hash u ≢ none)
      × ((d : Digest) → get_block_hash s ≡ some d → get_block_hash u ≡ some d)
unfolding run_task process_proposal process_vote is_lock get_block_hash
task_keeps n s u (proposal p) out e v = (λ h z. ground (arith, v), λ d h. ground arith)
task_keeps n s u (vote w) out e v = (λ h z. ground (arith, v), λ d h. ground arith)

-- Whatever tasks an instance has run from new, it is locked only if it has a block.
pub lock_has_block :
    (n : Identity) (epoch round : Int64) (proposer : NodeId) {s : Spb} {ts : List Task}
    {es : List Effect}
    → Reaches n (new_spb epoch round proposer) s ts es
    → is_lock s ≡ true
    → get_block_hash s ≢ none
lock_has_block n epoch round proposer start h = unfold new_spb is_lock in cc
lock_has_block n epoch round proposer (later {t} {u} {out} k r e) h =
    (task_keeps n t u k out e (lock_has_block n epoch round proposer r)).0 h

-- Once an instance has a block, and if its being locked implies that it has one, no later task
-- changes the block.
pub block_fixed :
    {n : Identity} {s t : Spb} {ts : List Task} {es : List Effect} {d : Digest}
    → (is_lock s ≡ true → get_block_hash s ≢ none)
    → get_block_hash s ≡ some d
    → Reaches n s t ts es
    → get_block_hash t ≡ some d
block_fixed v h start = h
block_fixed {n} {d} v h (later {t} {u} {out} k r e) =
    (task_keeps n t u k out e (λ _ z. cc (block_fixed v h r))).1 d (block_fixed v h r)
