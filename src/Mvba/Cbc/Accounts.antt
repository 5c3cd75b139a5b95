-- ===== src/Mvba/Cbc/Accounts.antt =====
-- core/mvba/consensus/cbc.go: what becomes of the votes under any interleaving of the goroutines.
use bft_mvba.Methods.{Identity, run_all}
use bft_mvba.Base.{ℕ, ◌+◌, ◌≤◌, List, [], ◌∷◌, ◌++◌, length, none, some, ok, ◌≡◌, refl, arith}
use bft_mvba.Threads.{Step, enter, go_on, run_step, total, total-append, entered}
use bft_mvba.Mvba.Messages.{Uint8, Block, block_hash, Proposal, Ready, Final}
use bft_mvba.Mvba.Effects.{Effect, send, loopback, go_cbc, CbcTask, data_cbc}
use bft_mvba.Mvba.Cbc.Defs.{Cbc, go_readys, go_finals, release, make_vote}
use bft_mvba.Mvba.Cbc.Steps.{
  Point, releasing, voting, keeping_ready, keeping_final, counting_ready, counting_final, finishing,
  look, advance,
}

abbrev is_vote : CbcTask → ℕ
is_vote (CbcTask.ready r) = 1
is_vote (CbcTask.final f) = 0
is_vote _ = 0

abbrev has_vote : Point → ℕ
has_vote (keeping_ready r) = 1
has_vote (counting_ready r) = 1
has_vote (releasing t) = 0
has_vote (voting t) = 0
has_vote (keeping_final f) = 0
has_vote (counting_final f) = 0
has_vote (finishing f) = 0

abbrev starts_vote : Effect → ℕ
starts_vote (go_cbc _ _ _ k) = is_vote k
starts_vote (send _ _ _) = 0
starts_vote (loopback _) = 0
starts_vote _ = 0

-- The goroutines that entered with a vote, those on the way with one, and those started with one that
-- was put aside.
abbrev pub votes_entered : List (Step CbcTask) → ℕ
votes_entered = entered is_vote

abbrev pub votes_on_the_way : List Point → ℕ
votes_on_the_way = total has_vote

abbrev pub votes_restarted : List Effect → ℕ
votes_restarted = total starts_vote

abbrev settled : Cbc → ℕ
settled s = s.ready_cnts + length s.unhandle_ready

abbrev FewCounted : ℕ → Cbc → Type 0
FewCounted k s = s.ready_cnts ≤ k

restarted-go :
    (s : Cbc) (t : Uint8) (rs : List Ready) (fs : List Final)
    → votes_restarted (go_readys s t rs ++ go_finals s t fs) ≡ length rs
restarted-go s t [] [] = refl
restarted-go s t [] (f ∷ fs) = omega (arith, restarted-go s t [] fs)
restarted-go s t (r ∷ rs) fs = omega (arith, restarted-go s t rs fs)

-- The vote is looked at before the proposal is, and put aside after the proposal has taken out what
-- was put aside.
abbrev pub overtaken : Ready → Proposal → List (Step CbcTask)
overtaken r p =
    go_on 0 ∷ go_on 0 ∷ go_on 1 ∷ enter (CbcTask.proposal p) ∷ enter (CbcTask.ready r) ∷ []

look-early :
    (n : Identity) (s : Cbc) (r : Ready)
    → s.block_hash ≡ none
    → r.tag ≡ data_cbc
    → look n (CbcTask.ready r) s ≡ (ok (keeping_ready r ∷ []), s, [])
unfolding look
look-early n s r none_yet about_block = ground (arith, none_yet, about_block)

abbrev holding : Identity → Cbc → Block → Cbc
holding n s b = record s { block_hash = some (block_hash n.sig_service b) }

look-proposal :
    (n : Identity) (s : Cbc) (p : Proposal) (b : Block)
    → p.author ≡ s.proposer
    → p.b ≡ some b
    → look n (CbcTask.proposal p) s ≡ (ok (releasing data_cbc ∷ []), holding n s b, [])
unfolding look
look-proposal n s p b mine there = ground (arith, mine, there)

restarted-make_vote : (n : Identity) (s : Cbc) (t : Uint8) → votes_restarted (make_vote n s t) ≡ 0
unfolding make_vote
restarted-make_vote n s t = ground arith

-- Where a broadcast holds no block, a vote for its block that is looked at before a proposal of
-- the proposer, and put aside after that proposal has taken out what lay aside, is left behind:
-- all goroutines have ended, the broadcast holds the block, and the vote alone lies aside; no
-- vote more has been counted, and as many were started again as lay aside before it.
pub early_vote_lost :
    (n : Identity) (tag : Uint8) (s : Cbc) (r : Ready) (p : Proposal) (b : Block)
    → s.block_hash ≡ none
    → r.tag ≡ data_cbc
    → p.author ≡ s.proposer
    → p.b ≡ some b
    → let (t, es) =
        run_all
          (run_step (look n) (advance n tag))
          (record { shared = s; points = [] })
          (overtaken r p) in
      (t.points ≡ [])
      × (t.shared.block_hash ≡ some (block_hash n.sig_service b))
      × (t.shared.unhandle_ready ≡ r ∷ [])
      × (t.shared.ready_cnts ≡ s.ready_cnts)
      × (votes_restarted es ≡ length s.unhandle_ready)
unfolding run_all run_step advance release
early_vote_lost n tag s r p b none_yet about_block mine there =
    let h : Cbc = holding n s b in
    let gos : List Effect = go_readys h tag s.unhandle_ready ++ go_finals h tag s.unhandle_final in
    let u : Cbc = record h { unhandle_ready = r ∷ []; unhandle_final = [] } in
    rw (look-early n s r none_yet about_block, look-proposal n s p b mine there)
      (
        refl,
        refl,
        refl,
        refl,
        omega (
          arith,
          total-append starts_vote (gos ++ []) (make_vote n u data_cbc),
          total-append starts_vote gos [],
          restarted-go h tag s.unhandle_ready s.unhandle_final,
          restarted-make_vote n u data_cbc,
        ),
      )
