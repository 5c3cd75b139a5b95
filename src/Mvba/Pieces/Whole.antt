-- ===== src/Mvba/Pieces/Whole.antt =====
-- core/mvba/consensus/core.go: runs keep to what events keep to.
use bft_mvba.Base.{List, Int64}
use bft_mvba.Committee.{NodeId}
use bft_mvba.Methods.{Respects, Reaches-Respects}
use bft_mvba.Mvba.Messages.{Uint8}
use bft_mvba.Mvba.Effects.{Effect, CbcTask, AbaTask, CbcBack}
use bft_mvba.Mvba.Core.{
  Services, Core, process_cbc_back, first_proposal, run_cbc_task, run_aba_task,
}
use bft_mvba.Mvba.Runs.{
  Event, begin, message, cbc_result, aba_result, cbc_task, aba_task, run_event, Reaches,
}
use bft_mvba.Mvba.Pieces.Defs.{Pieces}
use bft_mvba.Mvba.Pieces.Handlers.{receive_message-Respects}
use bft_mvba.Mvba.Pieces.Outputs.{process_aba_back-Respects}

module _ {ℓ} (sv : Services) (R : Core → Core → List Effect → Type ℓ) where
  -- Everything that a node does keeps to the relation.
  pub record Events : Type ℓ where
    pub pieces : Pieces sv R R
    pub begins : Respects R first_proposal
    pub finals : (b : CbcBack) → Respects R (process_cbc_back b)
    pub runs_cbc :
        (e : Int64) (n : NodeId) (t : Uint8) (k : CbcTask) → Respects R (run_cbc_task e n t k)
    pub runs_aba : (e r : Int64) (k : AbaTask) → Respects R (run_aba_task e r k)

module _ {ℓ} {sv : Services} {R : Core → Core → List Effect → Type ℓ} (p : Events sv R) where
  run_event-Respects : (ev : Event) → Respects R (run_event sv ev)
  unfolding run_event
  run_event-Respects begin = p.begins
  run_event-Respects (message m) = receive_message-Respects p.pieces m
  run_event-Respects (cbc_result b) = p.finals b
  run_event-Respects (aba_result b) = process_aba_back-Respects p.pieces b
  run_event-Respects (cbc_task e n t k) = p.runs_cbc e n t k
  run_event-Respects (aba_task e r k) = p.runs_aba e r k

  pub run-Respects :
      {c d : Core} {evs : List Event} {es : List Effect} → Reaches sv c d evs es → R c d es
  run-Respects reach = Reaches-Respects p.pieces.trace run_event-Respects reach
