-- ===== src/Mvba/Finals/Once.antt =====
-- core/mvba/consensus/core.go, `processCBCBack`: what a node tells when enough broadcasts are done.
use bft_mvba.Base.{
  ◌+◌, ◌^◌, ◌≤◌, ◌<◌, leb, if◌then◌else◌, List, length, length-append, Int64, ◌≡◌, refl, ◌∙◌, arith,
  inc, ap,
}
use bft_mvba.Committee.{hight_threshold}
use bft_mvba.Pool.{Pool}
use bft_mvba.Store.{History}
use bft_mvba.Methods.{Identity, start, later, gather-append}
use bft_mvba.Mvba.Messages.{new_commitment, new_elect_share}
use bft_mvba.Mvba.Effects.{Effect, CbcBack, data_cbc, commit_cbc}
use bft_mvba.Mvba.Core.{Services, Core, new_core, add_finals, add_commitment, process_cbc_back}
use bft_mvba.Mvba.Runs.{
  Event, begin, message, cbc_result, aba_result, cbc_task, aba_task, run_event, Reaches,
}
use bft_mvba.Mvba.Pieces.{receive_message-Respects, process_aba_back-Respects}
use bft_mvba.Mvba.Finals.Same.{
  Same, Same-Pieces, Same-run_cbc_task, Same-run_aba_task, Same-first_proposal, commitments,
  commitment_sent, elect_shares, share_sent, done_cnt,
}

-- What an event does to the counts, with what it sets off.
record Counts (e : Int64) (c d : Core) (es : List Effect) : Type 0 where
  node : d.identity ≡ c.identity
  data_one : done_cnt d e data_cbc ≤ done_cnt c e data_cbc + 1
  commit_one : done_cnt d e commit_cbc ≤ done_cnt c e commit_cbc + 1
  commits :
      length (commitments e es)
        + (if leb (hight_threshold c.committee) (done_cnt c e data_cbc) then 1 else 0)
      ≡ (if leb (hight_threshold c.committee) (done_cnt d e data_cbc) then 1 else 0)
  shares :
      length (elect_shares e es)
        + (if leb (hight_threshold c.committee) (done_cnt c e commit_cbc) then 1 else 0)
      ≡ (if leb (hight_threshold c.committee) (done_cnt d e commit_cbc) then 1 else 0)

Counts-Same : (e : Int64) (c d : Core) (es : List Effect) → Same e c d es → Counts e c d es
Counts-Same e c d es s = record {
  node = s.node;
  data_one = rw (s.cnts) (omega arith);
  commit_one = rw (s.cnts) (omega arith);
  commits = rw (s.cnts, s.no_commitment) (omega arith);
  shares = rw (s.cnts, s.no_share) (omega arith);
}

Counts-process_cbc_back :
    (e : Int64) (b : CbcBack) (c : Core)
    → done_cnt c e data_cbc < 2 ^ 62
    → done_cnt c e commit_cbc < 2 ^ 62
    → Counts e c (process_cbc_back b c).1 (process_cbc_back b c).2
unfolding process_cbc_back add_finals add_commitment inc new_commitment new_elect_share
Counts-process_cbc_back e b c few few' = record {
  node = ground arith;
  data_one = ground arith;
  commit_one = ground arith;
  commits = ground arith;
  shares = ground arith;
}

Counts-run_event :
    (sv : Services) (e : Int64) (ev : Event) (c : Core)
    → done_cnt c e data_cbc < 2 ^ 62
    → done_cnt c e commit_cbc < 2 ^ 62
    → Counts e c (run_event sv ev c).1 (run_event sv ev c).2
unfolding run_event
Counts-run_event sv e begin c few few' = Counts-Same e c _ _ (Same-first_proposal e c)
Counts-run_event sv e (message m) c few few' =
    Counts-Same e c _ _ (receive_message-Respects (Same-Pieces sv e) m c)
Counts-run_event sv e (cbc_result b) c few few' = Counts-process_cbc_back e b c few few'
Counts-run_event sv e (aba_result b) c few few' =
    Counts-Same e c _ _ (process_aba_back-Respects (Same-Pieces sv e) b c)
Counts-run_event sv e (cbc_task i n t k) c few few' =
    Counts-Same e c _ _ (Same-run_cbc_task e i n t k c)
Counts-run_event sv e (aba_task i r k) c few few' =
    Counts-Same e c _ _ (Same-run_aba_task e i r k c)

-- The counts so far, and what they have set off.
record Counted (n : Identity) (e : Int64) (c : Core) (evs : List Event) (es : List Effect)
    : Type 0 where
  node : c.identity ≡ n
  data_few : done_cnt c e data_cbc ≤ length evs
  commit_few : done_cnt c e commit_cbc ≤ length evs
  commits :
      length (commitments e es)
      ≡ (if leb (hight_threshold n.committee) (done_cnt c e data_cbc) then 1 else 0)
  shares :
      length (elect_shares e es)
      ≡ (if leb (hight_threshold n.committee) (done_cnt c e commit_cbc) then 1 else 0)

Reaches-Counted :
    (sv : Services) (n : Identity) (h : History) (pool : Pool) (e : Int64) {c : Core}
    {evs : List Event} {es : List Effect}
    → Reaches sv (new_core n h pool) c evs es
    → length evs < 2 ^ 62
    → Counted n e c evs es
Reaches-Counted sv n h pool e start small = record {
  node = unfold new_core in refl;
  data_few = unfold new_core in omega arith;
  commit_few = unfold new_core in omega arith;
  commits = unfold new_core hight_threshold in ground arith;
  shares = unfold new_core hight_threshold in ground arith;
}
Reaches-Counted sv n h pool e (later {d} {evs} {es} ev r) small =
    let v = Reaches-Counted sv n h pool e r (omega arith) in
    let w = Counts-run_event sv e ev d (omega (arith, v.data_few)) (omega (arith, v.commit_few)) in
    let out : List Effect = (run_event sv ev d).2 in
    let thr : (hight_threshold d.committee ≡ hight_threshold n.committee) =
      ap (λ (x : Identity). hight_threshold x.committee) v.node in
    let committed = rw thr at w.commits in
    let shared = rw thr at w.shares in
    record {
      node = w.node ∙ v.node;
      data_few = omega (arith, v.data_few, w.data_one);
      commit_few = omega (arith, v.commit_few, w.commit_one);
      commits = rw (gather-append (commitment_sent e) es out) (
          omega
            (arith, length-append (commitments e es) (commitments e out), v.commits, committed));
      shares =
          rw (gather-append (share_sent e) es out) (
            omega
              (arith, length-append (elect_shares e es) (elect_shares e out), v.shares, shared));
    }

-- Over any run of a new node of MVBA of fewer than 2 ^ 62 events, it sends its commitment of an
-- epoch to everybody once if it counted `HightThreshold` finished broadcasts of blocks and never
-- otherwise, and its share of the election once if it counted as many of commitments and never
-- otherwise.
pub stage_ends_once :
    (sv : Services) (n : Identity) (h : History) (pool : Pool) (e : Int64) {c : Core}
    {evs : List Event} {es : List Effect}
    → Reaches sv (new_core n h pool) c evs es
    → length evs < 2 ^ 62
    → (length (commitments e es)
        ≡ (if leb (hight_threshold n.committee) (done_cnt c e data_cbc) then 1 else 0))
      × (length (elect_shares e es)
          ≡ (if leb (hight_threshold n.committee) (done_cnt c e commit_cbc) then 1 else 0))
stage_ends_once sv n h pool e r small =
    let v = Reaches-Counted sv n h pool e r small in (v.commits, v.shares)
