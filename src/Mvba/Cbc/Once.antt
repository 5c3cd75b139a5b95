-- ===== src/Mvba/Cbc/Once.antt =====
-- core/mvba/consensus/cbc.go as a transition system: the tasks that the core starts on one instance, in
-- any order, and what the instance does at most once.
use bft_mvba.Base.{
  ◌+◌, ◌-◌, ◌^◌, ◌≤◌, ◌<◌, leb, if◌then◌else◌, List, [], ◌∷◌, length, length-append, Outcome, ok,
  err, panic, Int64, ◌≡◌, refl, arith,
}
use bft_mvba.Committee.{NodeId, hight_threshold}
use bft_mvba.Methods
use bft_mvba.Methods.{Identity, Method, start, later, gather, gather-append}
use bft_mvba.Mvba.Messages.{Proposal, Commitment, Ready, Uint8, Final, Messgae, new_final}
use bft_mvba.Mvba.Effects.{Effect, send, cbc_back, CbcBack, CbcTask}
use bft_mvba.Mvba.Cbc.Defs.{
  Cbc, new_cbc, make_vote, process_proposal, process_commitment, process_ready, process_final,
  run_cbc, inc32, int_of_int32, release,
}
use bft_mvba.Mvba.Cbc.Shows.{done_by, gather-process_proposal, gather-process_commitment}

abbrev after : Cbc → Outcome (Cbc × List Effect) → Outcome (Unit {0}) × Cbc × List Effect
after s (ok (t, es)) = (ok tt, t, es)
after s (err e) = (err e, s, [])
after s panic = (panic, s, [])

-- A task as a method of the instance, which is filed under the tag.
unfoldable pub run_task : Identity → Uint8 → CbcTask → Method Cbc Effect (Unit {0})
unfolding run_cbc
run_task n tag k s = after s (run_cbc n s tag k)

-- An instance after some tasks.
abbrev pub Reaches : Identity → Uint8 → Cbc → Cbc → List CbcTask → List Effect → Type 0
Reaches n tag = Methods.Reaches (run_task n tag)

abbrev final_in : Messgae → List Final
final_in (Messgae.final m) = m ∷ []
final_in (Messgae.vote _) = []
final_in _ = []

abbrev final_sent : Effect → List Final
final_sent (send _ _ m) = final_in m
final_sent _ = []

-- The `Final` messages that were sent to everybody.
abbrev pub finals : List Effect → List Final
finals es = gather final_sent es

abbrev result_of : Effect → List CbcBack
result_of (cbc_back b) = b ∷ []
result_of _ = []

-- The results that the core was given.
abbrev pub results : List Effect → List CbcBack
results es = gather result_of es

-- The counts, and what they have set off.
record Counted (n : Identity) (s : Cbc) (ks : List CbcTask) (es : List Effect) : Type 0 where
  ready_few : s.ready_cnts ≤ length ks
  final_few : s.final_cnts ≤ length ks
  sent : length (finals es) ≡ (if leb (hight_threshold n.committee) s.ready_cnts then 1 else 0)
  given : length (results es) ≡ (if leb 1 s.final_cnts then 1 else 0)

-- What a task does to the counts, with what it sets off.
record Counts (n : Identity) (s t : Cbc) (es : List Effect) : Type 0 where
  ready_one : t.ready_cnts ≤ s.ready_cnts + 1
  final_one : t.final_cnts ≤ s.final_cnts + 1
  sends :
      length (finals es) + (if leb (hight_threshold n.committee) s.ready_cnts then 1 else 0)
      ≡ (if leb (hight_threshold n.committee) t.ready_cnts then 1 else 0)
  gives :
      length (results es) + (if leb 1 s.final_cnts then 1 else 0)
      ≡ (if leb 1 t.final_cnts then 1 else 0)

kept-Counts :
    (n : Identity) (s t : Cbc) (es : List Effect)
    → t.ready_cnts ≡ s.ready_cnts
    → t.final_cnts ≡ s.final_cnts
    → finals es ≡ []
    → results es ≡ []
    → Counts n s t es
kept-Counts n s t es rs fs no_final no_result = record {
  ready_one = omega (arith, rs);
  final_one = omega (arith, fs);
  sends = rw (no_final, rs) (omega arith);
  gives = rw (no_result, fs) (omega arith);
}

after-done_by : (s : Cbc) (r : Outcome (Cbc × List Effect)) → (after s r).2 ≡ done_by r
after-done_by s (ok (t, es)) = refl
after-done_by s (err e) = refl
after-done_by s panic = refl

vote_no_final : (n : Identity) (s : Cbc) (t : Uint8) → finals (make_vote n s t) ≡ []
unfolding make_vote
vote_no_final n s t = ground arith

vote_no_result : (n : Identity) (s : Cbc) (t : Uint8) → results (make_vote n s t) ≡ []
unfolding make_vote
vote_no_result n s t = ground arith

proposal-Counts :
    (n : Identity) (tag : Uint8) (s : Cbc) (p : Proposal)
    → Counts n s (run_task n tag (CbcTask.proposal p) s).1 (run_task n tag (CbcTask.proposal p) s).2
unfolding run_task run_cbc process_proposal release
proposal-Counts n tag s p =
    let shown = after-done_by s (process_proposal n s tag p) in
    kept-Counts n s (run_task n tag (CbcTask.proposal p) s).1 _ (ground arith) (ground arith)
      (rw shown (gather-process_proposal final_sent (λ e i u k. refl) vote_no_final n s tag p))
      (rw shown (gather-process_proposal result_of (λ e i u k. refl) vote_no_result n s tag p))

ready-Counts :
    (n : Identity) (s : Cbc) (r : Ready)
    → s.ready_cnts < 2 ^ 31 - 1
    → Counts n s (process_ready n s r).0 (process_ready n s r).1
unfolding process_ready inc32 int_of_int32 new_final
ready-Counts n s r small = record {
  ready_one = ground arith;
  final_one = ground arith;
  sends = ground arith;
  gives = ground arith;
}

final-Counts :
    (n : Identity) (s : Cbc) (m : Final)
    → s.final_cnts < 2 ^ 31 - 1
    → Counts n s (process_final n s m).0 (process_final n s m).1
unfolding process_final inc32 int_of_int32
final-Counts n s m small = record {
  ready_one = ground arith;
  final_one = ground arith;
  sends = ground arith;
  gives = ground arith;
}

commitment-Counts :
    (n : Identity) (tag : Uint8) (s : Cbc) (m : Commitment)
    → Counts n s (process_commitment n s tag m).0 (process_commitment n s tag m).1
unfolding process_commitment release
commitment-Counts n tag s m =
    kept-Counts n s (process_commitment n s tag m).0 (process_commitment n s tag m).1 (ground arith)
      (ground arith)
      (gather-process_commitment final_sent (λ e i u k. refl) vote_no_final n s tag m)
      (gather-process_commitment result_of (λ e i u k. refl) vote_no_result n s tag m)

task-Counts :
    (n : Identity) (tag : Uint8) (s : Cbc) (k : CbcTask)
    → s.ready_cnts < 2 ^ 31 - 1
    → s.final_cnts < 2 ^ 31 - 1
    → Counts n s (run_task n tag k s).1 (run_task n tag k s).2
unfolding run_task run_cbc
task-Counts n tag s (CbcTask.proposal p) few_r few_f = proposal-Counts n tag s p
task-Counts n tag s (CbcTask.commitment m) few_r few_f = commitment-Counts n tag s m
task-Counts n tag s (CbcTask.ready r) few_r few_f = ready-Counts n s r few_r
task-Counts n tag s (CbcTask.final m) few_r few_f = final-Counts n s m few_f

Reaches-Counted :
    (n : Identity) (tag : Uint8) (proposer : NodeId) (epoch : Int64) {s : Cbc} {ks : List CbcTask}
    {es : List Effect}
    → Reaches n tag (new_cbc proposer epoch) s ks es
    → length ks < 2 ^ 31
    → Counted n s ks es
Reaches-Counted n tag proposer epoch start small = record {
  ready_few = unfold new_cbc in omega arith;
  final_few = unfold new_cbc in omega arith;
  sent = unfold new_cbc hight_threshold in ground arith;
  given = unfold new_cbc in refl;
}
Reaches-Counted n tag proposer epoch (later {d} {evs} {es} k r) small =
    let v = Reaches-Counted n tag proposer epoch r (omega arith) in
    let w = task-Counts n tag d k (omega (arith, v.ready_few)) (omega (arith, v.final_few)) in
    let out : List Effect = (run_task n tag k d).2 in
    record {
      ready_few = omega (arith, v.ready_few, w.ready_one);
      final_few = omega (arith, v.final_few, w.final_one);
      sent =
          rw (gather-append final_sent es out)
            (omega (arith, length-append (finals es) (finals out), v.sent, w.sends));
      given =
          rw (gather-append result_of es out)
            (omega (arith, length-append (results es) (results out), v.given, w.gives));
    }

-- Over any run of fewer than 2 ^ 31 tasks of a new broadcast, it sends its `Final` to everybody
-- once if the votes that it counted reached `HightThreshold` and never otherwise, and gives its
-- result to the core once if it counted a `Final` and never otherwise.
pub cbc_finishes_once :
    (n : Identity) (tag : Uint8) (proposer : NodeId) (epoch : Int64) {s : Cbc} {ks : List CbcTask}
    {es : List Effect}
    → Reaches n tag (new_cbc proposer epoch) s ks es
    → length ks < 2 ^ 31
    → (length (finals es) ≡ (if leb (hight_threshold n.committee) s.ready_cnts then 1 else 0))
      × (length (results es) ≡ (if leb 1 s.final_cnts then 1 else 0))
cbc_finishes_once n tag proposer epoch r small =
    let v = Reaches-Counted n tag proposer epoch r small in (v.sent, v.given)
