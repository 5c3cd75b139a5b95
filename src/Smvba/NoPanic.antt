-- ===== src/Smvba/NoPanic.antt =====
-- core/smvba/consensus/core.go, `processLeader`: the type assertion on the block of a locked instance.
use bft_mvba.Methods.{Identity, Reaches-Respects, IsTrace, Respects}
use bft_mvba.Base.{true, List, none, panic, Int64, ◌≡◌, ◌≢◌, arith}
use bft_mvba.Committee.{NodeId}
use bft_mvba.Pool.{Pool}
use bft_mvba.Store.{History}
use bft_mvba.Smvba.Messages.{SpbProposal, SpbVote}
use bft_mvba.Smvba.Effects.{Effect}
use bft_mvba.Smvba.Elector.{leader}
use bft_mvba.Smvba.Spb.{new_spb, is_lock, get_block_hash, process_proposal, process_vote}
use bft_mvba.Smvba.Core.{
  Services, Core, M, new_core, spb_or_new, process_leader, get_spb_instance, first_proposal,
  dispatch, run_proposal, run_vote,
}
use bft_mvba.Smvba.Runs.{
  Event, begin, message, proposal_task, vote_task, run_event, Reaches, receive-Respects,
}
use bft_mvba.Smvba.Instances.{SameSpb, spb-dispatch, spb-first_proposal}

-- Every instance that is locked has a block.
abbrev pub IsSafe : Core → Type 0
IsSafe c =
    (e r : Int64) (n : NodeId)
    → is_lock (spb_or_new c e r n) ≡ true
    → get_block_hash (spb_or_new c e r n) ≢ none

abbrev KeepsSafe : Core → Core → List Effect → Type 0
KeepsSafe c d es = IsSafe c → IsSafe d

KeepsSafe-IsTrace : IsTrace KeepsSafe
KeepsSafe-IsTrace = record { still = λ c h. h; chain = λ c d k es fs h g s. g (h s) }

same-safe :
    (m : M (Unit {0}))
    → ((e r : Int64) (n : NodeId) → Respects (SameSpb e r n) m)
    → Respects KeepsSafe m
same-safe m h c s e r n = rw (h e r n c) (s e r n)

safe-run_proposal :
    (i j : Int64) (k : NodeId) (p : SpbProposal) → Respects KeepsSafe (run_proposal i j k p)
unfolding run_proposal process_proposal is_lock get_block_hash
safe-run_proposal i j k p c s e r n h z = ground (arith, s e r n, s i j k)

safe-run_vote : (i j : Int64) (k : NodeId) (v : SpbVote) → Respects KeepsSafe (run_vote i j k v)
unfolding run_vote process_vote is_lock get_block_hash
safe-run_vote i j k v c s e r n h z = ground (arith, s e r n, s i j k)

safe-run_event : (sv : Services) (ev : Event) → Respects KeepsSafe (run_event sv ev)
unfolding run_event
safe-run_event sv begin = same-safe first_proposal spb-first_proposal
safe-run_event sv (message m) =
    receive-Respects KeepsSafe-IsTrace sv m
      (same-safe (dispatch sv m) (λ e r n. spb-dispatch e r n sv m))
safe-run_event sv (proposal_task i j n p) = safe-run_proposal i j n p
safe-run_event sv (vote_task i j n v) = safe-run_vote i j n v

safe-process_leader : (e r : Int64) (c : Core) → IsSafe c → (process_leader e r c).0 ≢ panic
unfolding process_leader get_spb_instance
safe-process_leader e r c s z = ground (arith, s e r (leader c.elector e r))

-- In whatever state a run of a new node leaves it, `processLeader` does not panic: the instance
-- of the leader has a block if it is locked.
pub process_leader_safe :
    (sv : Services) (n : Identity) (h : History) (pool : Pool) (e r : Int64) {c : Core}
    {evs : List Event} {es : List Effect}
    → Reaches sv (new_core n h pool) c evs es
    → (process_leader e r c).0 ≢ panic
process_leader_safe sv n h pool e r {c} reach =
    safe-process_leader e r c
      (Reaches-Respects KeepsSafe-IsTrace (safe-run_event sv) reach new_safe)
  where
    new_safe : IsSafe (new_core n h pool)
    new_safe i j k locked z = unfold new_core new_spb is_lock in cc
