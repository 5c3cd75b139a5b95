-- ===== src/Smvba/Tests/Instance.antt =====
-- One instance of core/smvba/consensus/spb.go.
use bft_mvba.Base.{◌≡◌, refl, List, [], ◌∷◌, true, if◌then◌else◌, leb, none, some, arith}
use bft_mvba.Committee.{hight_threshold}
use bft_mvba.Smvba.Messages.{SpbProposal, spb_one_phase, spb_two_phase}
use bft_mvba.Smvba.Signing.{new_spb_proposal}
use bft_mvba.Smvba.Effects.{Effect}
use bft_mvba.Smvba.Spb.{Spb, new_spb, process_proposal, accept_block}
use bft_mvba.Smvba.Spb.Runs.{proposal, run_task, Reaches, start, later}
use bft_mvba.Smvba.Spb.Quorum.{finishes, finish_sent_once}
use bft_mvba.Fixtures.{service, node}
use bft_mvba.Smvba.Tests.Fixtures.{block_of}

abbrev first : SpbProposal
first = new_spb_proposal service 1 (some (block_of 1 0)) 0 0 spb_one_phase

abbrev second : SpbProposal
second = new_spb_proposal service 1 none 0 0 spb_two_phase

abbrev fresh : Spb
fresh = new_spb 0 0 1

-- The instance and what it did, after the first proposal and after the second.
abbrev accepted : Spb × List Effect
accepted = accept_block node fresh first (block_of 1 0)

abbrev locked : Spb
locked = record accepted.0 { lock_flag = true }

locking : (es : List Effect) × Reaches node fresh locked (proposal second ∷ proposal first ∷ []) es
unfolding run_task process_proposal new_spb_proposal new_spb accept_block
locking = (_, later (proposal second) (later (proposal first) start refl) refl)

finish_sent_once_example :
    finishes locking.0
    ≡ (if leb (hight_threshold node.committee) (locked.votes spb_two_phase) then 1 else 0)
finish_sent_once_example = finish_sent_once node 0 0 1 locking.1 (omega arith)
