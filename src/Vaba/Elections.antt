-- ===== src/Vaba/Elections.antt =====
-- core/vaba/consensus/core.go: the shares of the election that a node sends over a run.
use bft_mvba.Methods.{Identity, Respects, Respects-if, Respects-bind, Reaches-Respects, lift}
use bft_mvba.Base.{List, [], ◌∷◌, ◌++◌, err, err_signature, if◌then◌else◌, Int64, Int8, ◌≡◌, arith}
use bft_mvba.Committee.{NodeId}
use bft_mvba.Pool.{Pool}
use bft_mvba.Store.{History}
use bft_mvba.Crypto.{Digest}
use bft_mvba.Vaba.Messages.{Proposal, Vote, Messgae, verify_message, msg_type, phase_one_falg}
use bft_mvba.Vaba.Effects.{Effect}
use bft_mvba.Vaba.Promote.{
  Promote, process_proposal, process_vote, hold_block, later_phase, reply, on_quorum, go_proposals,
  go_votes,
}
use bft_mvba.Vaba.Core.{
  Services, Core, M, new_core, dispatch, receive, first_proposal, run_proposal, run_vote,
  generator_block, pb_or_new,
}
use bft_mvba.Vaba.Runs.{Event, begin, message, proposal_task, vote_task, run_event, Reaches}
use bft_mvba.Vaba.Shares.{shares, as_number, Once, Once-IsTrace, Once-dispatch}

module _ (sv : Services) (e : Int64) where
  Once-receive : (m : Messgae) → Respects (Once e) (receive sv m)
  unfolding receive
  Once-receive m c =
      let refuse : M (Unit {0}) = lift (err (err_signature (msg_type m))) in
      Respects-bind (Once-IsTrace e) (lift (verify_message c.sig_service c.committee m))
        (λ valid. if valid then dispatch sv m else refuse) (λ k. omega arith)
        (λ valid.
          Respects-if (Once e) valid (dispatch sv m) refuse (λ _. Once-dispatch sv e m)
            (λ _ k. omega arith))
        c

  shares-go :
      (n : Identity) (s : Promote) (ps : List Proposal) (vs : List Vote) (d : Digest)
      → shares e (go_proposals s ps ++ (go_votes s vs ++ reply n s d phase_one_falg ∷ [])) ≡ 0
  unfolding reply
  shares-go n s [] [] d = ground arith
  shares-go n s [] (v ∷ vs) d = omega (arith, shares-go n s [] vs d)
  shares-go n s (p ∷ ps) vs d = omega (arith, shares-go n s ps vs d)

  shares-later_phase :
      (n : Identity) (s : Promote) (d : Digest) (k : Int8) → shares e (later_phase n s d k).1 ≡ 0
  unfolding later_phase reply
  shares-later_phase n s d k = ground arith

  Once-run_proposal :
      (i : Int64) (n : NodeId) (p : Proposal) → Respects (Once e) (run_proposal i n p)
  unfolding run_proposal process_proposal hold_block
  Once-run_proposal i n p c =
      let s : Promote = pb_or_new c i n in
      grind (
        arith,
        shares-go c.identity s s.unhandle_proposal s.unhandle_vote,
        λ (d : Digest). shares-later_phase c.identity s d p.phase,
      )

  Once-run_vote : (i : Int64) (n : NodeId) (v : Vote) → Respects (Once e) (run_vote i n v)
  unfolding run_vote process_vote on_quorum
  Once-run_vote i n v c = ground arith

  Once-first_proposal : Respects (Once e) first_proposal
  unfolding first_proposal generator_block
  Once-first_proposal c = ground arith

  Once-run_event : (ev : Event) → Respects (Once e) (run_event sv ev)
  unfolding run_event
  Once-run_event begin = Once-first_proposal
  Once-run_event (message m) = Once-receive m
  Once-run_event (proposal_task i n p) = Once-run_proposal i n p
  Once-run_event (vote_task i n v) = Once-run_vote i n v

-- Over any run of a new node of VABA, it sends its share of the election of an epoch to everybody
-- once if it set the flag of the epoch for it, and never otherwise.
pub vaba_elects_once :
    (sv : Services) (n : Identity) (h : History) (pool : Pool) (e : Int64) {c : Core}
    {evs : List Event} {es : List Effect}
    → Reaches sv (new_core n h pool) c evs es
    → shares e es ≡ as_number (c.elect_flag e)
unfolding new_core
vaba_elects_once sv n h pool e reach =
    let all = Reaches-Respects (Once-IsTrace e) (Once-run_event sv e) reach in omega (arith, all)
