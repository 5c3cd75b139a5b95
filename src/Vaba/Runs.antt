-- ===== src/Vaba/Runs.antt =====
-- core/vaba/consensus/core.go as a transition system: one node, what comes out of its receive
-- channel, and the goroutines of its instances, in any order. A goroutine runs as one step. What a
-- handler returns does not end the run: an error is logged, and a panic, which would end the
-- process, is let go on.
use bft_mvba.Methods
use bft_mvba.Methods.{run_all, run_all-Reaches}
use bft_mvba.Base.{List, Int64}
use bft_mvba.Committee.{NodeId}
use bft_mvba.Vaba.Messages.{Proposal, Vote, Messgae}
use bft_mvba.Vaba.Effects.{Effect}
use bft_mvba.Vaba.Core.{Services, Core, M, first_proposal, receive, run_proposal, run_vote}

pub data Event : Type 0 where
  begin : Event
  message : Messgae → Event
  proposal_task : (epoch : Int64) → NodeId → Proposal → Event
  vote_task : (epoch : Int64) → NodeId → Vote → Event

unfoldable pub run_event : Services → Event → M (Unit {0})
unfolding first_proposal receive run_proposal run_vote
run_event sv begin = first_proposal
run_event sv (message m) = receive sv m
run_event sv (proposal_task epoch n p) = run_proposal epoch n p
run_event sv (vote_task epoch n v) = run_vote epoch n v

-- A node after some events.
abbrev pub Reaches : Services → Core → Core → List Event → List Effect → Type 0
Reaches sv = Methods.Reaches (run_event sv)

-- The node after a list of events, the newest first, and what it did.
abbrev pub run_events : Services → Core → List Event → Core × List Effect
run_events sv = run_all (run_event sv)

pub run_events-Reaches :
    (sv : Services) (c : Core) (evs : List Event)
    → Reaches sv c (run_events sv c evs).0 evs (run_events sv c evs).1
run_events-Reaches sv c evs = run_all-Reaches (run_event sv) c evs
