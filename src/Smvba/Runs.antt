-- ===== src/Smvba/Runs.antt =====
-- core/smvba/consensus/core.go as a transition system: one node, what comes out of its receive
-- channel, and the goroutines of its instances, in any order. A goroutine runs as one step. What a
-- handler returns does not end the run: an error is logged, and a panic, which would end the
-- process, is let go on.
use bft_mvba.Methods
use bft_mvba.Methods.{
  run_all, run_all-Reaches, start, later, IsTrace, Respects, Respects-bind, Respects-if,
  Respects-next, lift, return_nil, ◌>>◌,
}
use bft_mvba.Base.{if◌then◌else◌, List, err, err_signature, Int64, inc}
use bft_mvba.Committee.{NodeId}
use bft_mvba.Smvba.Messages.{SpbProposal, SpbVote, Halt}
use bft_mvba.Smvba.Signing.{Messgae, verify_message, msg_type}
use bft_mvba.Smvba.Effects.{Effect}
use bft_mvba.Smvba.Core.{
  set_chosen, set_halted, handle_output, advance_next_epoch, handle_halt, message_filter, Services,
  Core, M, first_proposal, dispatch, receive, run_proposal, run_vote,
}

pub data Event : Type 0 where
  begin : Event
  message : Messgae → Event
  proposal_task : (epoch round : Int64) → NodeId → SpbProposal → Event
  vote_task : (epoch round : Int64) → NodeId → SpbVote → Event

unfoldable pub run_event : Services → Event → M (Unit {0})
unfolding first_proposal receive run_proposal run_vote
run_event sv begin = first_proposal
run_event sv (message m) = receive sv m
run_event sv (proposal_task epoch round n p) = run_proposal epoch round n p
run_event sv (vote_task epoch round n v) = run_vote epoch round n v

-- A node after some events.
abbrev pub Reaches : Services → Core → Core → List Event → List Effect → Type 0
Reaches sv = Methods.Reaches (run_event sv)

module _ {ℓ} {R : Core → Core → List Effect → Type ℓ} (t : IsTrace R) where
  pub receive-Respects :
      (sv : Services) (m : Messgae) → Respects R (dispatch sv m) → Respects R (receive sv m)
  unfolding receive
  receive-Respects sv m h c =
      Respects-bind t (lift (verify_message c.sig_service c.committee m))
        (λ valid. if valid then dispatch sv m else lift (err (err_signature (msg_type m))))
        (λ d. t.still d)
        (λ valid.
          Respects-if R valid (dispatch sv m) (lift (err (err_signature (msg_type m)))) (λ _. h)
            (λ _ d. t.still d))
        c

  pub handle_halt-Respects :
      (sv : Services) (h : Halt)
      → Respects R (set_chosen h)
      → Respects R (handle_output sv h.epoch h.block_hash)
      → Respects R (set_halted h.epoch)
      → Respects R (advance_next_epoch (inc h.epoch))
      → Respects R (handle_halt sv h)
  unfolding handle_halt
  handle_halt-Respects sv h chosen out halted on c =
      Respects-if R (message_filter c h.epoch) return_nil handle_new (λ _ d. t.still d)
        (λ _.
          Respects-if R (c.halt_flags h.epoch) return_nil halting (λ _ d. t.still d)
            (λ _. Respects-next t (set_chosen h) (output >> (set_halted h.epoch >> go_on)) chosen (
              Respects-next t output (set_halted h.epoch >> go_on) out
                (Respects-next t (set_halted h.epoch) go_on halted on))))
        c
    where
      output : M (Unit {0})
      output = handle_output sv h.epoch h.block_hash

      go_on : M (Unit {0})
      go_on = advance_next_epoch (inc h.epoch)

      halting : M (Unit {0})
      halting = set_chosen h >> (output >> (set_halted h.epoch >> go_on))

      handle_new : M (Unit {0})
      handle_new = if c.halt_flags h.epoch then return_nil else halting

-- The node after a list of events, the newest first, and what it did.
abbrev pub run_events : Services → Core → List Event → Core × List Effect
run_events sv = run_all (run_event sv)

pub run_events-Reaches :
    (sv : Services) (c : Core) (evs : List Event)
    → Reaches sv c (run_events sv c evs).0 evs (run_events sv c evs).1
run_events-Reaches sv c evs = run_all-Reaches (run_event sv) c evs
