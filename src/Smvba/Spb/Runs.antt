-- ===== src/Smvba/Spb/Runs.antt =====
-- core/smvba/consensus/spb.go as a transition system: the tasks that the core starts on one
-- instance, in any order, each run as a whole, with no other one in between.
use bft_mvba.Methods.{Identity}
use bft_mvba.Base.{List, [], ◌∷◌, ◌++◌, Outcome, ok, ◌≡◌}
use bft_mvba.Smvba.Messages.{SpbProposal, SpbVote}
use bft_mvba.Smvba.Effects.{Effect}
use bft_mvba.Smvba.Spb.Defs.{Spb, process_proposal, process_vote}

pub data Task : Type 0 where
  proposal : SpbProposal → Task
  vote : SpbVote → Task

unfoldable pub run_task : Identity → Spb → Task → Outcome (Spb × List Effect)
run_task n s (proposal p) = process_proposal n s p
run_task n s (vote v) = ok (process_vote n s v)

-- The instance after some tasks, the newest first, and what they did, the newest task's part first.
pub data Reaches (n : Identity) (s : Spb) : Spb → List Task → List Effect → Type 0 where
  start : Reaches n s s [] []
  later :
      {t u : Spb} {ts : List Task} {es out : List Effect} (k : Task)
      → Reaches n s t ts es
      → run_task n t k ≡ ok (u, out)
      → Reaches n s u (k ∷ ts) (out ++ es)
