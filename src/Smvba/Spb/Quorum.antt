-- ===== src/Smvba/Spb/Quorum.antt =====
-- core/smvba/consensus/spb.go: the quorum of the second phase, and the message that it sets off.
use bft_mvba.Methods.{Identity}
use bft_mvba.Base.{
  ℕ, ◌+◌, ◌^◌, ◌≤◌, ◌<◌, List, [], ◌∷◌, ◌++◌, some, ok, ◌≡◌, refl, Int64, arith, if◌then◌else◌,
  length, All, ltb, leb, ◌&&◌, inc,
}
use bft_mvba.Crypto.{Digest}
use bft_mvba.Committee.{NodeId, hight_threshold}
use bft_mvba.Smvba.Messages.{SpbProposal, SpbVote, spb_two_phase}
use bft_mvba.Smvba.Signing.{Messgae}
use bft_mvba.Smvba.Effects.{Effect, send}
use bft_mvba.Smvba.Spb.Defs.{
  Spb, new_spb, process_proposal, process_vote, accept_block, go_proposals, go_votes,
}
use bft_mvba.Smvba.Spb.Runs.{Task, proposal, vote, run_task, Reaches, start, later}

-- How often the node sends a `Finish` to everybody.
abbrev is_finish : Effect → ℕ
is_finish (send _ _ (Messgae.finish _)) = 1
is_finish (send _ _ (Messgae.halt _)) = 0
is_finish _ = 0

abbrev pub finishes : List Effect → ℕ
finishes [] = 0
finishes (e ∷ es) = is_finish e + finishes es

finishes-append : (es fs : List Effect) → finishes (es ++ fs) ≡ finishes es + finishes fs
finishes-append [] fs = omega arith
finishes-append (e ∷ es) fs = omega (arith, finishes-append es fs)

finishes-go :
    (s : Spb) (ps : List SpbProposal) (vs : List SpbVote)
    → finishes (go_proposals s ps ++ go_votes s vs) ≡ 0
finishes-go s [] [] = refl
finishes-go s [] (v ∷ vs) = omega (arith, finishes-go s [] vs)
finishes-go s (p ∷ ps) vs = omega (arith, finishes-go s ps vs)

-- The votes of the second phase are counted up to the number of tasks, and `Finish` has been sent
-- if they reached the threshold.
record Counted (n : Identity) (s : Spb) (ts : List Task) (es : List Effect) : Type 0 where
  few : s.votes spb_two_phase ≤ length ts
  sent : finishes es ≡ (if leb (hight_threshold n.committee) (s.votes spb_two_phase) then 1 else 0)

task-Counted :
    (n : Identity) (s u : Spb) (ts : List Task) (es out : List Effect) (k : Task)
    → run_task n s k ≡ ok (u, out)
    → length ts < 2 ^ 62
    → Counted n s ts es
    → Counted n u (k ∷ ts) (out ++ es)
unfolding run_task process_proposal process_vote accept_block inc
task-Counted n s u ts es out (proposal p) e small c = record {
  few = ground arith;
  sent =
      ground
        (arith, c.sent, finishes-append out es, finishes-go s s.unhandle_proposal s.unhandle_vote);
}
task-Counted n s u ts es out (vote v) e small c = record {
  few = ground arith;
  sent = ground (arith, c.sent, finishes-append out es);
}

-- Over any run of fewer than 2 ^ 62 tasks, an instance sends its `Finish` to everybody once if
-- the second-phase votes that it counted reached `HightThreshold`, and never otherwise.
pub finish_sent_once :
    (n : Identity) (epoch round : Int64) (proposer : NodeId) {s : Spb} {ts : List Task}
    {es : List Effect}
    → Reaches n (new_spb epoch round proposer) s ts es
    → length ts < 2 ^ 62
    → finishes es ≡ (if leb (hight_threshold n.committee) (s.votes spb_two_phase) then 1 else 0)
finish_sent_once n epoch round proposer r small = (reach_counted r small).sent
  where
    reach_counted :
        {s : Spb} {ts : List Task} {es : List Effect}
        → Reaches n (new_spb epoch round proposer) s ts es
        → length ts < 2 ^ 62
        → Counted n s ts es
    reach_counted start small = record {
      few = unfold new_spb in omega arith;
      sent = unfold new_spb hight_threshold in ground arith;
    }
    reach_counted (later {t} {u} {ts} {es} {out} k r e) small =
        task-Counted n t u ts es out k e (omega arith) (reach_counted r (omega arith))

-- The instance after a row of votes, and what they did.
unfoldable pub run_votes : Identity → Spb → List SpbVote → Spb × List Effect
run_votes n s [] = (s, [])
run_votes n s (v ∷ vs) =
    let (t, out) = process_vote n s v in let (u, rest) = run_votes n t vs in (u, out ++ rest)

abbrev pub IsSecondPhase : SpbVote → Type 0
IsSecondPhase v = v.phase ≡ spb_two_phase

run_votes-finishes :
    (n : Identity) (s : Spb) (d : Digest) (vs : List SpbVote)
    → s.block_hash ≡ some d
    → All IsSecondPhase vs
    → s.votes spb_two_phase + length vs < 2 ^ 62
    → finishes (run_votes n s vs).1 ≡ (
        if ltb (s.votes spb_two_phase) (hight_threshold n.committee)
          && leb (hight_threshold n.committee) (s.votes spb_two_phase + length vs)
        then 1
        else 0)
unfolding run_votes process_vote inc
run_votes-finishes n s d [] h two small = ground arith
run_votes-finishes n s d (v ∷ vs) h two small = ground (
  arith,
  run_votes-finishes n (process_vote n s v).0 d vs,
  finishes-append (process_vote n s v).1 (run_votes n (process_vote n s v).0 vs).1,
)

-- On an instance with a block and no second-phase votes yet, any row of `HightThreshold`
-- second-phase votes, fewer than 2 ^ 62, has the `Finish` sent once, whoever their authors are.
pub votes_not_distinguished :
    (n : Identity) (s : Spb) (d : Digest) (vs : List SpbVote)
    → s.block_hash ≡ some d
    → s.votes spb_two_phase ≡ 0
    → All IsSecondPhase vs
    → length vs ≡ hight_threshold n.committee
    → length vs < 2 ^ 62
    → finishes (run_votes n s vs).1 ≡ 1
unfolding hight_threshold
votes_not_distinguished n s d vs h zero_yet two quorum small =
    ground (arith, run_votes-finishes n s d vs)
