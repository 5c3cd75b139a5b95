-- ===== src/Smvba/Tests/Nodes.antt =====
-- Runs of a node, core/smvba/consensus/core.go.
use bft_mvba.Base.{
  int64_of_int8, ◌≡◌, ◌≢◌, refl, List, [], ◌∷◌, length, map, if◌then◌else◌, some, panic, arith, slt,
}
use bft_mvba.Base.{inc, lookup, insert, remove}
use bft_mvba.Pool.{get_batch, get, new_pool, new_tx_queue, next_batch}
use bft_mvba.Committee.{no_node, name_of, authority, hight_threshold, low_threshold}
use bft_mvba.Crypto.{
  request_signature, request_ts_sugnature, append_int, format_bits, digest_bytes, be_bytes, verify,
}
use bft_mvba.Store.{read, write, serve}
use bft_mvba.Committor.{commit, drain}
use bft_mvba.Smvba.Signing.{
  spb_proposal_hash, halt_hash, done_hash, verify_message, new_elect_share, elect_share_hash,
}
use bft_mvba.Smvba.Messages.{block_bytes}
use bft_mvba.Smvba.Spb.{new_spb}
use bft_mvba.Smvba.Aggreator.{new_aggreator, append_done}
use bft_mvba.Smvba.Elector.{new_elector, leader}
use bft_mvba.Smvba.Core.{store_block, get_block}
use bft_mvba.Committor.Order.{count_up}
use bft_mvba.Smvba.Messages.{Block, block_hash, spb_one_phase}
use bft_mvba.Smvba.Signing.{Messgae, new_spb_proposal, new_halt, new_done}
use bft_mvba.Smvba.Core.{Core, new_core, process_leader}
use bft_mvba.Methods.{run_all}
use bft_mvba.Smvba.Runs.{run_event, Event, begin, message, run_events, run_events-Reaches}
use bft_mvba.Smvba.Quiet.{commits}
use bft_mvba.Smvba.CommitOrder.{commits_consecutive}
use bft_mvba.Smvba.Dones.{dones}
use bft_mvba.Smvba.DoneOnce.{done_sent_once}
use bft_mvba.Smvba.NoPanic.{process_leader_safe}
use bft_mvba.Smvba.Epochs.{NotBack, epoch-NotBack}
use bft_mvba.Fixtures.{service, node, pool}
use bft_mvba.Smvba.Tests.Fixtures.{services, block_of}

abbrev new_node : Core
new_node = new_core node [] pool

abbrev first_block : Block
first_block = block_of 1 0

-- The node starts, gets the proposal of node 1, runs it, and gets a halt on it.
abbrev events : List Event
events =
    message (Messgae.halt (new_halt service 2 1 (block_hash service first_block) 0 0))
    ∷ message (Messgae.done (new_done service 3 0 0))
    ∷ message (Messgae.done (new_done service 2 0 0))
    ∷ message (Messgae.done (new_done service 1 0 0))
    ∷ message
        (Messgae.spb_proposal (new_spb_proposal service 1 (some first_block) 0 0 spb_one_phase))
    ∷ begin
    ∷ []

commits_consecutive_example :
    map (λ (b : Block). b.epoch) (commits (run_events services new_node events).1)
    ≡ count_up 0 (length (commits (run_events services new_node events).1))
commits_consecutive_example =
    commits_consecutive services node [] pool (run_events-Reaches services new_node events)
      (omega arith)

done_sent_once_example :
    dones 0 0 (run_events services new_node events).1
    ≡ (if (run_events services new_node events).0.done_flags 0 0 then 1 else 0)
done_sent_once_example =
    done_sent_once services node [] pool 0 0 (run_events-Reaches services new_node events)

process_leader_safe_example : (process_leader 0 0 (run_events services new_node events).0).0 ≢ panic
process_leader_safe_example =
    process_leader_safe services node [] pool 0 0 (run_events-Reaches services new_node events)

epoch-NotBack_example : NotBack new_node (run_events services new_node events).0
epoch-NotBack_example =
    epoch-NotBack services new_node (run_events-Reaches services new_node events)

one_commit : length (commits (run_events services new_node events).1) ≡ 1
unfolding run_all run_event get_batch get new_pool new_tx_queue next_batch new_core new_aggreator
    new_elector name_of authority new_spb_proposal new_halt new_done spb_proposal_hash halt_hash
    done_hash request_signature append_int format_bits digest_bytes be_bytes slt inc verify
    verify_message store_block get_block read write serve block_hash block_bytes commit drain lookup
    insert remove hight_threshold low_threshold leader append_done new_elect_share elect_share_hash
    request_ts_sugnature no_node new_spb int64_of_int8
one_commit = refl

-- The node after the halt, which put it into epoch 1.
abbrev later_node : Core
later_node = record new_node { epoch = 1 }
