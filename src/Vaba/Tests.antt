-- ===== src/Vaba/Tests.antt =====
-- core/vaba/consensus/ on concrete inputs.
use bft_mvba.Base.{
  slt, ◌≡◌, refl, List, [], ◌∷◌, true, false, if◌then◌else◌, leb, none, some, panic, arith, map,
  length,
}
use bft_mvba.Committee.{hight_threshold, name_of}
use bft_mvba.Crypto.{Digest, append_int, verify, request_signature}
use bft_mvba.Vaba.Messages.{
  Block, block_hash, Proposal, Vote, ViewChange, Halt, new_halt, new_skip, Messgae, new_proposal,
  new_vote, new_view_change, verify_message, view_change_verify, phase_one_falg, phase_two_falg,
}
use bft_mvba.Vaba.Effects.{Effect, tell_all}
use bft_mvba.Vaba.Promote.{Promote, new_promote, process_proposal, hold_block, later_phase}
use bft_mvba.Vaba.Promote.Runs.{proposal, run_task, Reaches, start, later, run_votes}
use bft_mvba.Vaba.Promote.Once.{asks, phase_asked_once}
use bft_mvba.Vaba.Promote.NilBlocks.{minus_one, bare, stray_votes_crash}
use bft_mvba.Vaba.Core.{Core, Services, new_core, receive}
use bft_mvba.Vaba.Quiet.{commits}
use bft_mvba.Vaba.CommitOrder.{vaba_commits_consecutive}
use bft_mvba.Vaba.Runs.{Event, begin, message, run_events, run_events-Reaches}
use bft_mvba.Committor.Order.{count_up}
use bft_mvba.Vaba.Shares.{shares, as_number}
use bft_mvba.Vaba.Elections.{vaba_elects_once}
use bft_mvba.Vaba.Signatures.{stripped, view_change_crashes}
use bft_mvba.Fixtures.{service, node, db, pool}

abbrev block_one : Block
block_one = record { proposer = 1; batch = record { id = 5; txs = [] }; epoch = 0 }

abbrev first : Proposal
first = new_proposal service 1 0 phase_one_falg (some block_one)

abbrev second : Proposal
second = new_proposal service 1 0 phase_two_falg none

abbrev hash : Digest
hash = block_hash service block_one

abbrev fresh : Promote
fresh = new_promote 0 1

abbrev held : Promote
held = record fresh { block_hash = some hash }

abbrev keyed : Promote
keyed = record held { key_flag = true }

keying : (es : List Effect) × Reaches node fresh keyed (proposal second ∷ proposal first ∷ []) es
unfolding run_task process_proposal hold_block later_phase new_proposal new_promote
keying = (_, later (proposal second) (later (proposal first) start refl) refl)

phase_asked_once_example :
    asks 1 keying.0 ≡ (if leb (hight_threshold node.committee) (keyed.vote_cnts 0) then 1 else 0)
phase_asked_once_example =
    phase_asked_once node 0 1 0 keying.1 (tt, (tt, tt)) (omega arith) (omega arith)

-- Votes of node 3 alone, for the phase before the first one.
abbrev stray : List Vote
stray =
    new_vote service 3 1 hash 0 minus_one
    ∷ new_vote service 3 1 hash 0 minus_one
    ∷ new_vote service 3 1 hash 0 minus_one
    ∷ []

stray_votes_crash_example :
    ((run_votes node held false stray).1 ≡ tell_all 1 (Messgae.proposal (bare node held)))
    × (process_proposal node fresh (bare node held) ≡ panic)
unfolding new_promote
stray_votes_crash_example =
    stray_votes_crash node node held fresh hash false stray refl (unfold new_promote in refl)
      (unfold new_vote in ((refl, refl), ((refl, refl), ((refl, refl), tt))))
      (unfold hight_threshold in refl) (omega arith) (unfold new_promote in refl)

abbrev services : Services
services = record {
  db = db;
  encode = λ b. (b.batch.id ∷ [], none);
  decode = λ bs. (block_one, none);
}

abbrev begun : Core
begun = new_core node [] pool

-- A view change of node 2 that commits.
abbrev committing : ViewChange
committing = new_view_change service 2 1 0 (some hash) true true true

view_change_crashes_example :
    (receive services (Messgae.view_change (stripped committing 4)) begun).0 ≡ panic
unfolding name_of append_int slt
view_change_crashes_example =
    view_change_crashes services begun committing 4
      (unfold verify_message view_change_verify new_view_change verify request_signature new_core in
        refl)
      (unfold new_view_change in refl) (unfold new_core in refl) (unfold new_core in refl)

-- A node that starts, gets a proposal of node 1, is told to skip, and to halt the epoch 0 on it.
abbrev halting : Halt
halting = new_halt service 2 1 hash 0

abbrev events : List Event
events =
    message (Messgae.halt halting)
    ∷ message (Messgae.skip (new_skip service 3 0))
    ∷ message (Messgae.proposal first)
    ∷ begin
    ∷ []

vaba_commits_consecutive_example :
    map (λ (b : Block). b.epoch) (commits (run_events services begun events).1)
    ≡ count_up 0 (length (commits (run_events services begun events).1))
vaba_commits_consecutive_example =
    vaba_commits_consecutive services node [] pool (run_events-Reaches services begun events)
      (omega arith)

vaba_elects_once_example :
    shares 0 (run_events services begun events).1
    ≡ as_number ((run_events services begun events).0.elect_flag 0)
vaba_elects_once_example =
    vaba_elects_once services node [] pool 0 (run_events-Reaches services begun events)
