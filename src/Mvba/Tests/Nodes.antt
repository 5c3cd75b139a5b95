-- ===== src/Mvba/Tests/Nodes.antt =====
-- The elector, the messages and the node of core/mvba/consensus/ on concrete inputs.
use bft_mvba.Base.{
  ◌^◌, ◌<◌, ◌≤◌, ◌≡◌, refl, true, false, List, [], ◌∷◌, length, leb, if◌then◌else◌, Option, none,
  some, ok, panic, Int64, arith, count, get_elem?, map, inc, slt, inr, Error, err_other,
}
use bft_mvba.Committee.{NodeId, size, hight_threshold, name_of, authority}
use bft_mvba.Crypto.{Bytes, verify, request_signature, be_bytes}
use bft_mvba.Mvba.Aba.{new_aba}
use bft_mvba.Committor.Order.{count_up}
use bft_mvba.Methods.{run_all, run_all-Reaches}
use bft_mvba.Fixtures.{service, node, four, db, pool}
use bft_mvba.Mvba.Messages.{
  Uint8, flag_yes, flag_no, Slice, Block, new_block, Proposal, Commitment, Messgae, AbaVal, AbaHalt,
  ElectShare, verify_message, new_commitment, new_aba_val, new_aba_halt, new_elect_share, unsigned,
  aba_halt_verify, aba_halt_hash,
}
use bft_mvba.Mvba.Effects.{Effect, CbcTask, AbaTask, tell_all, go_aba, data_cbc, commit_cbc}
use bft_mvba.Mvba.Counters.{coin_seed, random_len}
use bft_mvba.Mvba.Commits.{epoch_of_entry}
use bft_mvba.Mvba.Elector.{Elector, new_elector, add_elect_share, leader}
use bft_mvba.Mvba.Elector.Order.{Shuffles, order_agreement, each_member_leads_once}
use bft_mvba.Mvba.Core.{
  Services, Core, new_core, receive, aba_or_new, process_aba_back, run_aba_task,
}
use bft_mvba.Mvba.Runs.{
  Event, begin, message, cbc_result, aba_result, cbc_task, aba_task, run_event,
}
use bft_mvba.Mvba.CommitOrder.{commits, mvba_commits_consecutive}
use bft_mvba.Mvba.Finals.{commitments, elect_shares, done_cnt, stage_ends_once}
use bft_mvba.Mvba.Halts.{
  backs, halt_back, told, halting, halt_reaches_core, no_halt_crashes, one_halt_ends_epoch,
}
use bft_mvba.Mvba.Signatures.{as_vote, as_mux, as_halt, mvba_verify_not_covered}
use bft_mvba.Mvba.Repeats.{support_back, value_sent_twice}
use bft_mvba.Mvba.Seeds.{big_endian, coin_seed-big_endian}

abbrev decoded : Bytes → Block × Option Error
decoded (p ∷ e ∷ i ∷ []) = (new_block p (record { id = i; txs = [] }) e, none)
decoded _ = (new_block 0 (record { id = 0; txs = [] }) 0, some (err_other 2))

abbrev services : Services
services = record {
  db = db;
  encode = λ b. (b.proposer ∷ b.epoch ∷ b.batch.id ∷ [], none);
  decode = decoded;
  shuffle = λ seed xs. xs;
}

abbrev new_node : Core
new_node = new_core node [] pool

abbrev done_by : NodeId → Uint8 → Event
done_by a tag = cbc_result (record {
  epoch = 0;
  author = a;
  tag = tag;
  commitment = some (Slice.own (true ∷ true ∷ true ∷ false ∷ []));
})

abbrev first_block : Block
first_block = new_block 1 (record { id = 1; txs = [] }) 0

abbrev first_proposal : Proposal
first_proposal = record { author = 1; b = some first_block; epoch = 0; signature = unsigned }

abbrev yes_halt : AbaHalt
yes_halt = new_aba_halt service 3 1 0 0 0 flag_yes

-- A broadcast of node 1 and a halt on it, after three broadcasts of each kind.
abbrev events : List Event
events =
    aba_result (halt_back yes_halt)
    ∷ aba_task 0 0 (AbaTask.halt yes_halt)
    ∷ message (Messgae.aba_halt yes_halt)
    ∷ cbc_task 0 1 data_cbc (CbcTask.proposal first_proposal)
    ∷ message (Messgae.proposal first_proposal)
    ∷ done_by 2 commit_cbc
    ∷ done_by 1 commit_cbc
    ∷ done_by 0 commit_cbc
    ∷ done_by 2 data_cbc
    ∷ done_by 1 data_cbc
    ∷ done_by 0 data_cbc
    ∷ begin
    ∷ []

abbrev after_events : Core × List Effect
after_events = run_all (run_event services) new_node events

mvba_commits_consecutive_example :
    map epoch_of_entry (commits after_events.1) ≡ count_up 0 (length (commits after_events.1))
mvba_commits_consecutive_example =
    mvba_commits_consecutive services node [] pool
      (run_all-Reaches (run_event services) new_node events) (omega arith)

stage_ends_once_example :
    (length (commitments 0 after_events.1)
      ≡ (if leb (hight_threshold four) (done_cnt after_events.0 0 data_cbc) then 1 else 0))
    × (length (elect_shares 0 after_events.1)
        ≡ (if leb (hight_threshold four) (done_cnt after_events.0 0 commit_cbc) then 1 else 0))
stage_ends_once_example =
    stage_ends_once services node [] pool 0 (run_all-Reaches (run_event services) new_node events)
      (omega arith)

abbrev share_of : NodeId → ElectShare
share_of a = new_elect_share service a 0

-- An elector with two shares of three.
abbrev nearly : Elector
nearly = record {
  committee = four;
  sig_service = service;
  seeds = λ _. none;
  rand_gen = λ _. none;
  used = λ _. [];
  elect_shares = λ _. (share_of 0).share ∷ (share_of 1).share ∷ [];
}

elects : (add_elect_share (λ seed xs. xs) nearly (share_of 2)).0 ≡ ok true
unfolding add_elect_share hight_threshold size new_elect_share
elects = refl

same_bytes : (a b : Bytes) → some (0 ∷ 0 ∷ 2 ∷ []) ≡ some a → some (0 ∷ 0 ∷ 2 ∷ []) ≡ some b → a ≡ b
same_bytes a b h g = cc

order_agreement_example :
    leader (add_elect_share (λ seed xs. xs) nearly (share_of 2)).1 0 3
    ≡ leader (add_elect_share (λ seed xs. xs) nearly (share_of 2)).1 0 3
unfolding new_elect_share
order_agreement_example =
    order_agreement (λ seed xs. xs) nearly nearly (share_of 2) (share_of 2)
      (record { unique = λ xs ys d. same_bytes; one_hash = λ b. refl }) refl refl elects elects 3

keeps : Shuffles (λ seed xs. xs)
keeps = record { same = λ seed xs a. refl; same_length = λ seed xs. refl }

each_member_leads_once_example :
    (order : List NodeId) × ((a : NodeId) → a < size four → count a order ≡ 1)
    × ((r : Int64)
        → r < size four
        → (a : NodeId) × (get_elem? order r ≡ some a)
          × (leader (add_elect_share (λ seed xs. xs) nearly (share_of 2)).1 (share_of 2).epoch r
              ≡ ok a))
    × ((r : Int64)
        → size four ≤ r
        → leader (add_elect_share (λ seed xs. xs) nearly (share_of 2)).1 (share_of 2).epoch r
          ≡ panic)
each_member_leads_once_example =
    each_member_leads_once (λ seed xs. xs) nearly (share_of 2) keeps elects

valid_halt : verify_message service four (Messgae.aba_halt yes_halt) ≡ ok true
unfolding verify_message aba_halt_verify new_aba_halt aba_halt_hash verify name_of authority
    request_signature be_bytes
valid_halt = refl

halt_reaches_core_example :
    ((receive services (Messgae.aba_halt yes_halt) new_node).2
      ≡ go_aba 0 0 (AbaTask.halt yes_halt) ∷ [])
    × (backs (run_aba_task 0 0 (AbaTask.halt yes_halt) (told services yes_halt new_node)).2
        ≡ halt_back yes_halt ∷ [])
    × ((aba_or_new (halting services yes_halt new_node) 0 0).halt ≡ true)
    × ((halting services yes_halt new_node).epoch ≡ new_node.epoch)
    × ((halting services yes_halt new_node).elector ≡ new_node.elector)
    × ((halting services yes_halt new_node).cbc_final_indexs ≡ new_node.cbc_final_indexs)
unfolding new_aba_halt new_core new_aba slt
halt_reaches_core_example = halt_reaches_core services yes_halt new_node true refl valid_halt refl

one_halt_ends_epoch_example :
    (process_aba_back services (halt_back yes_halt) (halting services yes_halt new_node)).1.epoch
    ≡ inc 0
unfolding new_aba_halt new_core new_aba slt inc
one_halt_ends_epoch_example =
    one_halt_ends_epoch services yes_halt new_node true refl valid_halt refl refl refl

abbrev no_halt : AbaHalt
no_halt = new_aba_halt service 3 1 0 0 0 flag_no

valid_no_halt : verify_message service four (Messgae.aba_halt no_halt) ≡ ok true
unfolding verify_message aba_halt_verify new_aba_halt aba_halt_hash verify name_of authority
    request_signature be_bytes
valid_no_halt = refl

-- One broadcast has finished.
abbrev started_node : Core
started_node = record new_node { cbc_final_indexs = λ _. some (false ∷ true ∷ false ∷ false ∷ []) }

no_halt_crashes_example :
    (process_aba_back services (halt_back no_halt) (halting services no_halt started_node)).0
    ≡ panic
unfolding new_aba_halt new_core new_aba new_elector leader slt inc
no_halt_crashes_example =
    no_halt_crashes services no_halt started_node true refl valid_no_halt refl refl
      (inr (false ∷ true ∷ false ∷ false ∷ [], refl, refl, omega arith))

abbrev some_val : AbaVal
some_val = new_aba_val service 1 2 0 0 0 flag_yes

abbrev some_commitment : Commitment
some_commitment = new_commitment service 1 (some (Slice.own (true ∷ []))) 0

mvba_verify_not_covered_example :
    (verify_message service four (Messgae.aba_val (record some_val { round = 5; in_round = 6 }))
      ≡ verify_message service four (Messgae.aba_val some_val))
    × (verify_message service four (Messgae.vote (as_vote some_val 5))
        ≡ verify_message service four (Messgae.aba_val some_val))
    × (verify_message service four (Messgae.aba_mux (as_mux some_val 5 6))
        ≡ verify_message service four (Messgae.aba_val some_val))
    × (verify_message service four (Messgae.aba_halt (as_halt some_val 5 6))
        ≡ verify_message service four (Messgae.aba_val some_val))
    × (verify_message service four (Messgae.commitment (record some_commitment { c = none }))
        ≡ verify_message service four (Messgae.commitment some_commitment))
mvba_verify_not_covered_example =
    mvba_verify_not_covered service four some_val some_commitment 5 6 none

value_sent_twice_example :
    ((run_aba_task 0 0 (AbaTask.coin 0 flag_no 1) new_node).2
      ≡ tell_all node (Messgae.aba_val (new_aba_val service 0 1 0 0 (inc 0) flag_no)))
    × ((process_aba_back services
          (support_back 0 0 (inc 0) flag_no 1)
          (run_aba_task 0 0 (AbaTask.coin 0 flag_no 1) new_node).1).2
        ≡ tell_all node (Messgae.aba_val (new_aba_val service 0 1 0 0 (inc 0) flag_no)))
unfolding new_core new_aba
value_sent_twice_example = value_sent_twice services new_node 0 0 0 flag_no 1 refl refl refl refl

coin_seed-big_endian_example :
    (coin_seed random_len 0 (1 ∷ 2 ∷ 255 ∷ []) ≡ big_endian 0 (1 ∷ 2 ∷ 255 ∷ []))
    × (coin_seed random_len 0 (1 ∷ 2 ∷ 255 ∷ []) < 2 ^ 56)
coin_seed-big_endian_example =
    coin_seed-big_endian (1 ∷ 2 ∷ 255 ∷ []) (omega arith, (omega arith, (omega arith, tt)))

abbrev later_node : Core
later_node = record new_node { epoch = 1 }
