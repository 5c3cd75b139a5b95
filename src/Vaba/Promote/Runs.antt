-- ===== src/Vaba/Promote/Runs.antt =====
-- core/vaba/consensus/promote.go as a transition system: the tasks that the core starts on one
-- promotion, in any order, each run as a whole. A vote may find the epoch skipped or not.
use bft_mvba.Methods.{Identity}
use bft_mvba.Base.{Bool, List, [], ◌∷◌, ◌++◌, Outcome, ok, ◌≡◌}
use bft_mvba.Vaba.Messages.{Proposal, Vote}
use bft_mvba.Vaba.Effects.{Effect}
use bft_mvba.Vaba.Promote.Defs.{Promote, process_proposal, process_vote}

pub data Task : Type 0 where
  proposal : Proposal → Task
  vote : (skipped : Bool) → Vote → Task

unfoldable pub run_task : Identity → Promote → Task → Outcome (Promote × List Effect)
run_task n s (proposal p) = process_proposal n s p
run_task n s (vote skipped v) = ok (process_vote n s skipped v)

-- The promotion after some tasks, the newest first, and what they did, the newest task's part first.
pub data Reaches (n : Identity) (s : Promote) : Promote → List Task → List Effect → Type 0 where
  start : Reaches n s s [] []
  later :
      {t u : Promote} {ts : List Task} {es out : List Effect} (k : Task)
      → Reaches n s t ts es
      → run_task n t k ≡ ok (u, out)
      → Reaches n s u (k ∷ ts) (out ++ es)

-- The promotion after a row of votes, and what they did.
unfoldable pub run_votes : Identity → Promote → Bool → List Vote → Promote × List Effect
run_votes n s skipped [] = (s, [])
run_votes n s skipped (v ∷ vs) =
    let (t, out) = process_vote n s skipped v in
    let (u, rest) = run_votes n t skipped vs in (u, out ++ rest)
