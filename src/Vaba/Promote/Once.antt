-- ===== src/Vaba/Promote/Once.antt =====
-- core/vaba/consensus/promote.go: the quorum of a phase, and the phase that it asks for.
use bft_mvba.Methods.{Identity}
use bft_mvba.Base.{
  ℕ, ◌+◌, ◌^◌, ◌≤◌, ◌<◌, List, [], ◌∷◌, ◌++◌, ◌≡◌, refl, Int8, Int64, arith, if◌then◌else◌, length,
  All, leb, Outcome, ok, err, panic, ap, sym, ◌∙◌, ◌==◌, inc, Option, none, some,
}
use bft_mvba.Committee.{NodeId, hight_threshold}
use bft_mvba.Crypto.{Digest}
use bft_mvba.Vaba.Messages.{
  Proposal, Vote, Messgae, new_proposal, block_hash, phase_one_falg, phase_two_falg,
  phase_three_falg, phase_four_falg, Block,
}
use bft_mvba.Vaba.Effects.{Effect, send}
use bft_mvba.Vaba.Promote.Defs.{
  Promote, new_promote, process_proposal, process_vote, later_phase, on_quorum, go_proposals,
  go_votes, hold_block, reply, slt8, inc8,
}
use bft_mvba.Vaba.Promote.Runs.{Task, proposal, vote, run_task, Reaches, start, later}

-- How often everybody is asked for a phase.
abbrev is_ask : Int8 → Effect → ℕ
is_ask k (send _ _ (Messgae.proposal p)) = if p.phase == k then 1 else 0
is_ask k (send _ _ (Messgae.vote _)) = 0
is_ask k _ = 0

abbrev pub asks : Int8 → List Effect → ℕ
asks k [] = 0
asks k (e ∷ es) = is_ask k e + asks k es

asks-append : (k : Int8) (es fs : List Effect) → asks k (es ++ fs) ≡ asks k es + asks k fs
asks-append k [] fs = omega arith
asks-append k (e ∷ es) fs = omega (arith, asks-append k es fs)

asks-go :
    (k : Int8) (s : Promote) (ps : List Proposal) (vs : List Vote) (es : List Effect)
    → asks k (go_proposals s ps ++ (go_votes s vs ++ es)) ≡ asks k es
asks-go k s [] [] es = refl
asks-go k s [] (v ∷ vs) es = omega (arith, asks-go k s [] vs es)
asks-go k s (p ∷ ps) vs es = omega (arith, asks-go k s ps vs es)

asks-reply :
    (j : Int8) (n : Identity) (s : Promote) (d : Digest) (phase : Int8)
    → asks j (reply n s d phase ∷ []) ≡ 0
unfolding reply
asks-reply j n s d phase = ground arith

-- The answer to a proposal asks for nothing.
record Quiet (j : Int8) (s u : Promote) (out : List Effect) : Type 0 where
  asks_none : asks j out ≡ 0
  same_cnts : (k : Int8) → u.vote_cnts k ≡ s.vote_cnts k

abbrev effects_of : Outcome (Promote × List Effect) → List Effect
effects_of (ok (s, es)) = es
effects_of (err _) = []
effects_of panic = []

hold_block-Quiet :
    (j : Int8) (n : Identity) (s u : Promote) (b : Option Block) (out : List Effect)
    → hold_block n s b ≡ ok (u, out)
    → Quiet j s u out
unfolding hold_block
hold_block-Quiet j n s u none out e = record {
  asks_none = ground arith;
  same_cnts = λ k. ground arith;
}
hold_block-Quiet j n s u (some b) out e =
    let r : Effect = reply n s (block_hash n.sig_service b) phase_one_falg in
    let es : List Effect =
      go_proposals s s.unhandle_proposal ++ (go_votes s s.unhandle_vote ++ r ∷ []) in
    let out_is : (es ≡ out) = ap effects_of e in
    record {
      asks_none =
          ap (asks j) (sym out_is)
          ∙ asks-go j s s.unhandle_proposal s.unhandle_vote (r ∷ [])
          ∙ asks-reply j n s (block_hash n.sig_service b) phase_one_falg;
      same_cnts = λ k. ground arith;
    }

later_phase-Quiet :
    (j : Int8) (n : Identity) (s : Promote) (d : Digest) (phase : Int8)
    → Quiet j s (later_phase n s d phase).0 (later_phase n s d phase).1
unfolding later_phase
later_phase-Quiet j n s d phase = record {
  asks_none = ground (
    arith,
    asks-reply j n s d phase_two_falg,
    asks-reply j n s d phase_three_falg,
    asks-reply j n s d phase_four_falg,
  );
  same_cnts = λ k. ground arith;
}

process_proposal-Quiet :
    (j : Int8) (n : Identity) (s u : Promote) (p : Proposal) (out : List Effect)
    → process_proposal n s p ≡ ok (u, out)
    → Quiet j s u out
unfolding process_proposal
process_proposal-Quiet j n s u p out e = record {
  asks_none = grind (arith, none_asked, none_later);
  same_cnts = λ k. grind (arith, same k, same_later k);
}
  where
    none_asked : hold_block n s p.b ≡ ok (u, out) → asks j out ≡ 0
    none_asked h = (hold_block-Quiet j n s u p.b out h).asks_none

    same : (k : Int8) → hold_block n s p.b ≡ ok (u, out) → u.vote_cnts k ≡ s.vote_cnts k
    same k h = (hold_block-Quiet j n s u p.b out h).same_cnts k

    none_later : (d : Digest) → asks j (later_phase n s d p.phase).1 ≡ 0
    none_later d = (later_phase-Quiet j n s d p.phase).asks_none

    same_later : (k : Int8) (d : Digest) → (later_phase n s d p.phase).0.vote_cnts k ≡ s.vote_cnts k
    same_later k d = (later_phase-Quiet j n s d p.phase).same_cnts k

-- The phase of a vote is an 8-bit pattern.
abbrev pub IsSized : Task → Type 0
IsSized (proposal p) = Unit
IsSized (vote _ v) = v.phase < 2 ^ 8

-- The votes of the phase are counted up to the number of tasks, and the next phase has been asked
-- for if they reached the threshold.
record Counted (n : Identity) (k : Int8) (s : Promote) (ts : List Task) (es : List Effect)
    : Type 0 where
  few : s.vote_cnts k ≤ length ts
  sent : asks (k + 1) es ≡ (if leb (hight_threshold n.committee) (s.vote_cnts k) then 1 else 0)

task-Counted :
    (n : Identity) (k : Int8) (s u : Promote) (ts : List Task) (es out : List Effect) (t : Task)
    → run_task n s t ≡ ok (u, out)
    → IsSized t
    → k < 3
    → length ts < 2 ^ 62
    → Counted n k s ts es
    → Counted n k u (t ∷ ts) (out ++ es)
unfolding run_task process_proposal process_vote later_phase on_quorum inc slt8 inc8 new_proposal
task-Counted n k s u ts es out (proposal p) e sized low small c =
    let q : Quiet (k + 1) s u out = process_proposal-Quiet (k + 1) n s u p out e in
    record {
      few = omega (arith, c.few, q.same_cnts k);
      sent = ground (arith, c.sent, q.asks_none, q.same_cnts k, asks-append (k + 1) out es);
    }
task-Counted n k s u ts es out (vote skipped v) e sized low small c = record {
  few = ground arith;
  sent = ground (arith, c.sent, asks-append (k + 1) out es);
}

-- Over any run of fewer than 2 ^ 62 tasks of a new promotion, on votes whose phases are 8-bit
-- patterns, for each of the first three phases: everybody is asked for the next phase once if the
-- votes that the promotion counted for the phase reached `HightThreshold`, and never otherwise.
pub phase_asked_once :
    (n : Identity) (epoch : Int64) (proposer : NodeId) (k : Int8) {s : Promote} {ts : List Task}
    {es : List Effect}
    → Reaches n (new_promote epoch proposer) s ts es
    → All IsSized ts
    → k < 3
    → length ts < 2 ^ 62
    → asks (k + 1) es ≡ (if leb (hight_threshold n.committee) (s.vote_cnts k) then 1 else 0)
phase_asked_once n epoch proposer k r sized low small = (reach_counted r sized small).sent
  where
    reach_counted :
        {s : Promote} {ts : List Task} {es : List Effect}
        → Reaches n (new_promote epoch proposer) s ts es
        → All IsSized ts
        → length ts < 2 ^ 62
        → Counted n k s ts es
    reach_counted start sized small = record {
      few = unfold new_promote in omega arith;
      sent = unfold new_promote hight_threshold in ground arith;
    }
    reach_counted (later {t} {u} {ts} {es} {out} x r e) (is, rest) small =
        task-Counted n k t u ts es out x e is low (omega arith) (reach_counted r rest (omega arith))
