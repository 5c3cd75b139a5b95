-- ===== src/Mvba/Finals/Same.antt =====
-- core/mvba/consensus/core.go: the events that neither finish a broadcast nor tell of one.
use mathlib.Core.Path.{ap₂}
use bft_mvba.Base.{if◌then◌else◌, ◌==◌, List, [], ◌∷◌, ◌++◌, or_new, Int64, ◌≡◌, refl, ◌∙◌, arith}
use bft_mvba.Committee.{NodeId}
use bft_mvba.Methods.{Identity, IsTrace, Respects, gather, gather-append}
use bft_mvba.Mvba.Messages.{
  Uint8, Commitment, ElectShare, Messgae, new_proposal, new_vote, new_aba_val,
}
use bft_mvba.Mvba.Effects.{Effect, send, CbcTask, AbaTask}
use bft_mvba.Mvba.Commits.{commit}
use bft_mvba.Mvba.Cbc.{Cbc, make_vote, process_ready, process_final}
use bft_mvba.Mvba.Aba.{process_aba_val, process_aba_mux, process_coin, process_halt, run_aba}
use bft_mvba.Mvba.Core.{
  Services, Core, no_finals, commit_block, commit_effects, store_block, generate_block,
  get_cbc_instance, get_aba_instance, invoke_stage_two, invoke_aba_val, abvance_next_epoch,
  first_proposal, run_cbc_task, run_aba_task, cbc_or_new,
}
use bft_mvba.Mvba.Pieces.{Mixes-alone, Pieces}
use bft_mvba.Mvba.Tasks.{run_cbc_task-done_by, gather-run_cbc}

abbrev commitment_in : Int64 → Messgae → List Commitment
commitment_in e (Messgae.commitment m) = if m.epoch == e then m ∷ [] else []
commitment_in e (Messgae.proposal _) = []
commitment_in e _ = []

abbrev pub commitment_sent : Int64 → Effect → List Commitment
commitment_sent e (send _ _ m) = commitment_in e m
commitment_sent e _ = []

-- The commitments of an epoch that were sent to everybody.
abbrev pub commitments : Int64 → List Effect → List Commitment
commitments e es = gather (commitment_sent e) es

abbrev share_in : Int64 → Messgae → List ElectShare
share_in e (Messgae.elect_share m) = if m.epoch == e then m ∷ [] else []
share_in e (Messgae.proposal _) = []
share_in e _ = []

abbrev pub share_sent : Int64 → Effect → List ElectShare
share_sent e (send _ _ m) = share_in e m
share_sent e _ = []

abbrev pub elect_shares : Int64 → List Effect → List ElectShare
elect_shares e es = gather (share_sent e) es

-- How many broadcasts of a kind are done, by the node's count.
abbrev pub done_cnt : Core → Int64 → Uint8 → Int64
done_cnt c e tag = or_new (c.cbc_final_cnts e) no_finals tag

pub record Same (e : Int64) (c d : Core) (es : List Effect) : Type 0 where
  pub node : d.identity ≡ c.identity
  pub cnts : d.cbc_final_cnts ≡ c.cbc_final_cnts
  pub no_commitment : commitments e es ≡ []
  pub no_share : elect_shares e es ≡ []

Same-IsTrace : (e : Int64) → IsTrace (Same e)
Same-IsTrace e = record {
  still = λ c. record { node = refl; cnts = refl; no_commitment = refl; no_share = refl };
  chain = λ c d k es fs h g. record {
    node = g.node ∙ h.node;
    cnts = g.cnts ∙ h.cnts;
    no_commitment =
        gather-append (commitment_sent e) es fs ∙ ap₂ ◌++◌ h.no_commitment g.no_commitment;
    no_share = gather-append (share_sent e) es fs ∙ ap₂ ◌++◌ h.no_share g.no_share;
  };
}

commit_effects-commitments : (e : Int64) (bs : _) → commitments e (commit_effects bs) ≡ []
commit_effects-commitments e [] = refl
commit_effects-commitments e (b ∷ bs) = commit_effects-commitments e bs

commit_effects-elect_shares : (e : Int64) (bs : _) → elect_shares e (commit_effects bs) ≡ []
commit_effects-elect_shares e [] = refl
commit_effects-elect_shares e (b ∷ bs) = commit_effects-elect_shares e bs

same :
    {e : Int64} {c d : Core} {es : List Effect}
    → d.identity ≡ c.identity
    → d.cbc_final_cnts ≡ c.cbc_final_cnts
    → commitments e es ≡ []
    → elect_shares e es ≡ []
    → Same e c d es
same n h k l = record { node = n; cnts = h; no_commitment = k; no_share = l }

pub Same-Pieces : (sv : Services) (e : Int64) → Pieces sv (Same e) (Same e)
unfolding store_block get_cbc_instance get_aba_instance invoke_stage_two invoke_aba_val commit_block
    abvance_next_epoch generate_block new_vote new_aba_val new_proposal
Same-Pieces sv e = record {
  trace = Same-IsTrace e;
  first = Mixes-alone (Same-IsTrace e);
  last = Mixes-alone (Same-IsTrace e);
  commits = λ i l b c.
      same refl refl (commit_effects-commitments e (commit c.commitor i l b).0)
        (commit_effects-elect_shares e (commit c.commitor i l b).0);
  stores = λ b c. same (ground arith) (ground arith) (ground arith) (ground arith);
  cbc = λ i n t c. same refl refl refl refl;
  aba = λ i r c. same refl refl refl refl;
  goes_cbc = λ i n t k c. same refl refl refl refl;
  goes_aba = λ i r k c. same refl refl refl refl;
  counts_vote = λ v c. same refl refl refl refl;
  counts_coin = λ m c. same refl refl refl refl;
  elects = λ m c. same refl refl refl refl;
  votes = λ i r c. same (ground arith) (ground arith) (ground arith) (ground arith);
  invokes = λ l i r j f c. same (ground arith) (ground arith) (ground arith) (ground arith);
  advances = λ i c. same (ground arith) (ground arith) (ground arith) (ground arith);
  puts_back = λ d c. same (ground arith) (ground arith) (ground arith) (ground arith);
}

votes_no_commitment :
    (e : Int64) (n : Identity) (s : Cbc) (t : Uint8) → commitments e (make_vote n s t) ≡ []
unfolding make_vote
votes_no_commitment e n s t = ground arith

votes_no_share :
    (e : Int64) (n : Identity) (s : Cbc) (t : Uint8) → elect_shares e (make_vote n s t) ≡ []
unfolding make_vote
votes_no_share e n s t = ground arith

pub Same-run_cbc_task :
    (e i : Int64) (n : NodeId) (t : Uint8) (k : CbcTask) → Respects (Same e) (run_cbc_task i n t k)
unfolding process_ready process_final
Same-run_cbc_task e i n t k c =
    let shown = run_cbc_task-done_by i n t k c in
    let s : Cbc = cbc_or_new c i n t in
    same (unfold run_cbc_task in ground arith) (unfold run_cbc_task in ground arith)
      (rw shown (
        gather-run_cbc (commitment_sent e) (λ j m u l. refl) (votes_no_commitment e) c.identity s t
          k (λ r. ground arith) (λ m. ground arith)))
      (rw shown (
        gather-run_cbc (share_sent e) (λ j m u l. refl) (votes_no_share e) c.identity s t k
          (λ r. ground arith) (λ m. ground arith)))

pub Same-run_aba_task : (e i r : Int64) (k : AbaTask) → Respects (Same e) (run_aba_task i r k)
unfolding run_aba_task run_aba process_aba_val process_aba_mux process_coin process_halt
Same-run_aba_task e i r (AbaTask.val m) c = same refl refl (ground arith) (ground arith)
Same-run_aba_task e i r (AbaTask.mux m) c = same refl refl (ground arith) (ground arith)
Same-run_aba_task e i r (AbaTask.coin j x l) c = same refl refl (ground arith) (ground arith)
Same-run_aba_task e i r (AbaTask.halt m) c = same refl refl (ground arith) (ground arith)

pub Same-first_proposal : (e : Int64) → Respects (Same e) first_proposal
unfolding first_proposal generate_block new_proposal
Same-first_proposal e c = same (ground arith) (ground arith) (ground arith) (ground arith)
