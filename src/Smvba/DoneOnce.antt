-- ===== src/Smvba/DoneOnce.antt =====
-- core/smvba/consensus/core.go, `invokeDoneAndShare`, over whole runs of a node.
use bft_mvba.Methods.{Identity, Reaches-Respects, Respects}
use bft_mvba.Base.{if◌then◌else◌, List, Int64, ◌≡◌, arith}
use bft_mvba.Pool.{Pool}
use bft_mvba.Store.{History}
use bft_mvba.Smvba.Signing.{new_spb_proposal}
use bft_mvba.Smvba.Effects.{Effect}
use bft_mvba.Smvba.Core.{Services, Core, new_core, first_proposal, generator_block}
use bft_mvba.Smvba.Runs.{
  Event, begin, message, proposal_task, vote_task, run_event, Reaches, receive-Respects,
}
use bft_mvba.Smvba.Dones.{
  dones, Counted, Counted-IsTrace, dones-dispatch, dones-run_proposal, dones-run_vote,
}

dones-first_proposal : (e r : Int64) → Respects (Counted e r) first_proposal
unfolding first_proposal generator_block new_spb_proposal
dones-first_proposal e r c = ground arith

dones-run_event :
    (e r : Int64) (sv : Services) (ev : Event) → Respects (Counted e r) (run_event sv ev)
unfolding run_event
dones-run_event e r sv begin = dones-first_proposal e r
dones-run_event e r sv (message m) =
    receive-Respects (Counted-IsTrace e r) sv m (dones-dispatch e r sv m)
dones-run_event e r sv (proposal_task i j n p) = dones-run_proposal e r i j n p
dones-run_event e r sv (vote_task i j n v) = dones-run_vote e r i j n v

-- Over any run of a new node, it sends its `Done` of an epoch and a round to everybody once if it
-- set the flag of the round, and never otherwise.
pub done_sent_once :
    (sv : Services) (n : Identity) (h : History) (pool : Pool) (e r : Int64) {c : Core}
    {evs : List Event} {es : List Effect}
    → Reaches sv (new_core n h pool) c evs es
    → dones e r es ≡ (if c.done_flags e r then 1 else 0)
unfolding new_core
done_sent_once sv n h pool e r {c} reach =
    omega (arith, Reaches-Respects (Counted-IsTrace e r) (dones-run_event e r sv) reach)
