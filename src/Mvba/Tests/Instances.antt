-- ===== src/Mvba/Tests/Instances.antt =====
-- Broadcasts and agreements of core/mvba/consensus/ on concrete inputs.
use bft_mvba.Base.{
  inc, slt, ◌≡◌, ◌⊎◌, refl, List, [], ◌∷◌, length, leb, if◌then◌else◌, some, ok, arith,
}
use bft_mvba.Committee.{NodeId, size, hight_threshold, low_threshold}
use bft_mvba.Methods.{run_all, run_all-Reaches}
use bft_mvba.Fixtures.{service, node, four}
use bft_mvba.Mvba.Messages.{
  flag_yes, Block, new_block, block_hash, Proposal, Ready, AbaVal, AbaMux, new_ready, new_final,
  new_aba_val, new_aba_mux, new_aba_halt, unsigned,
}
use bft_mvba.Mvba.Effects.{Effect, CbcTask, AbaTask, data_cbc}
use bft_mvba.Mvba.Cbc.{Cbc, new_cbc, process_proposal}
use bft_mvba.Mvba.Cbc.Once.{run_task, finals, results, cbc_finishes_once}
use bft_mvba.Mvba.Cbc.Votes.{votes, every_proposal_voted}
use bft_mvba.Mvba.Aba.{
  Aba, new_aba, process_coin, run_aba, process_aba_val, process_aba_mux, count_val, count_mux,
  settle_mux, set_flags, support,
}
use bft_mvba.Mvba.Aba.Runs.{Step, run_step}
use bft_mvba.Mvba.Aba.Once.{muxes, shares, ends, aba_sends_once}
use bft_mvba.Mvba.Aba.Flags
use bft_mvba.Mvba.Aba.Agreement.{Fair, Equivocates, halts, values, coin_agreement}

abbrev block_of : NodeId → Block
block_of a = new_block a (record { id = a; txs = [] }) 0

abbrev proposal_of : NodeId → Proposal
proposal_of a = record { author = a; b = some (block_of a); epoch = 0; signature = unsigned }

abbrev ready_of : NodeId → Ready
ready_of a = new_ready service a 0 0 data_cbc

-- A final and a vote that come early, the proposal, and what was put aside with two more votes.
abbrev broadcast : List CbcTask
broadcast =
    CbcTask.ready (ready_of 3)
    ∷ CbcTask.ready (ready_of 2)
    ∷ CbcTask.final (new_final service 0 0 data_cbc)
    ∷ CbcTask.ready (ready_of 1)
    ∷ CbcTask.proposal (proposal_of 0)
    ∷ CbcTask.ready (ready_of 1)
    ∷ CbcTask.final (new_final service 0 0 data_cbc)
    ∷ []

abbrev after_broadcast : Cbc × List Effect
after_broadcast = run_all (run_task node data_cbc) (new_cbc 0 0) broadcast

cbc_finishes_once_example :
    (length (finals after_broadcast.1)
      ≡ (if leb (hight_threshold four) after_broadcast.0.ready_cnts then 1 else 0))
    × (length (results after_broadcast.1) ≡ (if leb 1 after_broadcast.0.final_cnts then 1 else 0))
cbc_finishes_once_example =
    cbc_finishes_once node data_cbc 0 0
      (run_all-Reaches (run_task node data_cbc) (new_cbc 0 0) broadcast) (omega arith)

every_proposal_voted_example :
    (u : Cbc) × (es : List Effect) × (process_proposal node (new_cbc 1 0) data_cbc (proposal_of 1)
      ≡ ok (u, es))
    × (u.block_hash ≡ some (block_hash service (block_of 1)))
    × (votes es ≡ new_ready service 0 1 0 data_cbc ∷ [])
every_proposal_voted_example =
    unfold new_cbc in
    every_proposal_voted node (new_cbc 1 0) data_cbc (proposal_of 1) (block_of 1) refl refl

abbrev yes_val : NodeId → AbaVal
yes_val a = new_aba_val service a 2 0 0 0 flag_yes

abbrev yes_mux : NodeId → AbaMux
yes_mux a = new_aba_mux service a 2 0 0 0 flag_yes

-- Three values, three muxes of which the last one is looked at twice, and a halt that comes twice.
abbrev steps : List Step
steps =
    Step.halt (new_aba_halt service 1 2 0 0 0 flag_yes)
    ∷ Step.halt (new_aba_halt service 0 2 0 0 0 flag_yes)
    ∷ Step.settle (yes_mux 2) (record { mux_yes = 3; mux_no = 0; val_yes = 3; val_no = 0 })
    ∷ Step.settle (yes_mux 2) (record { mux_yes = 3; mux_no = 0; val_yes = 3; val_no = 0 })
    ∷ Step.count (yes_mux 2)
    ∷ Step.count (yes_mux 1)
    ∷ Step.count (yes_mux 0)
    ∷ Step.val (yes_val 2)
    ∷ Step.val (yes_val 1)
    ∷ Step.val (yes_val 0)
    ∷ []

abbrev after_steps : Aba × List Effect
after_steps = run_all (run_step node) (new_aba 0 0) steps

aba_sends_once_example :
    (length (muxes 0 after_steps.1) ≡ (if after_steps.0.mux_flag 0 then 1 else 0))
    × (length (shares 0 after_steps.1) ≡ (if after_steps.0.mux_fin_flag 0 then 1 else 0))
    × (length (ends after_steps.1) ≡ (if after_steps.0.halt then 1 else 0))
aba_sends_once_example =
    aba_sends_once node 0 0 0 (run_all-Reaches (run_step node) (new_aba 0 0) steps)

abbrev tasks : List AbaTask
tasks =
    AbaTask.mux (yes_mux 2)
    ∷ AbaTask.mux (yes_mux 1)
    ∷ AbaTask.mux (yes_mux 0)
    ∷ AbaTask.val (yes_val 2)
    ∷ AbaTask.val (yes_val 1)
    ∷ AbaTask.val (yes_val 0)
    ∷ []

abbrev after_tasks : Aba × List Effect
after_tasks = run_all (Flags.run_task node) (new_aba 0 0) tasks

fair : Fair four 0 tasks
unfolding new_aba_mux
fair = record {
  yes_once = (refl, (refl, (refl, tt)));
  no_once = tt;
  yes_members = λ a h. ground arith;
  no_members = λ a h. cc;
}

halted : halts (process_coin node after_tasks.0 0 flag_yes 2) ≡ flag_yes ∷ []
unfolding process_coin run_all Flags.run_task run_aba process_aba_val process_aba_mux count_val
    count_mux settle_mux set_flags support new_aba hight_threshold low_threshold size inc slt
    new_aba_val new_aba_mux new_aba_halt
halted = refl

coin_agreement_example :
    (values (process_coin node after_tasks.0 0 flag_yes 2) ≡ flag_yes ∷ [])
    ⊎ Equivocates (3 ∷ []) 0 tasks tasks
    ⊎ Equivocates (3 ∷ []) 0 tasks tasks
unfolding size
coin_agreement_example =
    coin_agreement node node 1 (3 ∷ []) 0 0 0 flag_yes 2 refl (refl, (refl, (refl, (refl, tt))))
      refl (omega arith) (omega arith) (run_all-Reaches (Flags.run_task node) (new_aba 0 0) tasks)
      (run_all-Reaches (Flags.run_task node) (new_aba 0 0) tasks) (omega arith) (omega arith) fair
      fair halted
