-- ===== src/Smvba/Quiet.antt =====
-- core/smvba/consensus/core.go: which methods commit a block.
use bft_mvba.Methods.{IsTrace, Respects}
use bft_mvba.Base.{List, [], ◌∷◌, ◌++◌, Int64, ◌≡◌, refl, ◌∙◌, sym, arith}
use mathlib.Core.Path.{ap₂}
use mathlib.Core.List.{append_assoc}
use bft_mvba.Committee.{NodeId}
use bft_mvba.Smvba.Messages.{
  Block, SpbProposal, SpbVote, Prevote, FinVote, Done, Finish, ElectShare,
}
use bft_mvba.Smvba.Effects.{Effect, send, loopback, go_proposal, go_vote, to_commit}
use bft_mvba.Smvba.Spb.{
  Spb, get_block_hash, process_proposal, process_vote, accept_block, go_proposals, go_votes,
}
use bft_mvba.Smvba.Core.{
  spb_or_new, put_back_own, accept_proposal, Services, Core, store_block, get_spb_instance,
  generator_block, get_block, invoke_done_and_share, process_leader, advance_next_epoch,
  handle_spb_vote, handle_finish, handle_done, handle_elect_share, handle_prevote, handle_finvote,
  run_proposal, run_vote, first_proposal,
}

-- The blocks that go out to be committed, in order.
abbrev commit_of : Effect → List Block
commit_of (to_commit b) = b ∷ []
commit_of (send _ _ _) = []
commit_of (loopback _) = []
commit_of (go_proposal _ _ _ _) = []
commit_of (go_vote _ _ _ _) = []

abbrev pub commits : List Effect → List Block
commits [] = []
commits (e ∷ es) = commit_of e ++ commits es

pub commits-append : (es fs : List Effect) → commits (es ++ fs) ≡ commits es ++ commits fs
commits-append [] fs = refl
commits-append (e ∷ es) fs =
    rw (commits-append es fs) (sym (append_assoc (commit_of e) (commits es) (commits fs)))

commits-go :
    (s : Spb) (ps : List SpbProposal) (vs : List SpbVote)
    → commits (go_proposals s ps ++ go_votes s vs) ≡ []
commits-go s [] [] = refl
commits-go s [] (v ∷ vs) = commits-go s [] vs
commits-go s (p ∷ ps) vs = commits-go s ps vs

-- Nothing is committed, and nothing is put aside for it.
abbrev pub Quiet : Core → Core → List Effect → Type 0
Quiet c d es = (commits es ≡ []) × (d.commitor ≡ c.commitor)

pub Quiet-IsTrace : IsTrace Quiet
Quiet-IsTrace = record {
  still = λ c. (refl, refl);
  chain = λ c d k es fs h g. (commits-append es fs ∙ ap₂ ◌++◌ h.0 g.0, g.1 ∙ h.1);
}

pub Quiet-put_back_own : (sv : Services) (i : Int64) → Respects Quiet (put_back_own sv i)
unfolding get_block get_spb_instance get_block_hash
Quiet-put_back_own sv i c = (ground arith, ground arith)

pub Quiet-advance_next_epoch : (i : Int64) → Respects Quiet (advance_next_epoch i)
unfolding advance_next_epoch generator_block
Quiet-advance_next_epoch i c = (ground arith, ground arith)

pub Quiet-accept_proposal :
    (sv : Services) (p : SpbProposal) → Respects Quiet (accept_proposal sv p)
unfolding store_block get_spb_instance
Quiet-accept_proposal sv p c = (ground arith, ground arith)

pub Quiet-handle_spb_vote : (v : SpbVote) → Respects Quiet (handle_spb_vote v)
unfolding handle_spb_vote get_spb_instance
Quiet-handle_spb_vote v c = (ground arith, ground arith)

pub Quiet-handle_finish : (f : Finish) → Respects Quiet (handle_finish f)
unfolding handle_finish invoke_done_and_share
Quiet-handle_finish f c = (ground arith, ground arith)

pub Quiet-handle_done : (m : Done) → Respects Quiet (handle_done m)
unfolding handle_done invoke_done_and_share process_leader get_spb_instance
Quiet-handle_done m c = (ground arith, ground arith)

pub Quiet-handle_elect_share : (m : ElectShare) → Respects Quiet (handle_elect_share m)
unfolding handle_elect_share
Quiet-handle_elect_share m c = (ground arith, ground arith)

pub Quiet-handle_prevote : (m : Prevote) → Respects Quiet (handle_prevote m)
unfolding handle_prevote
Quiet-handle_prevote m c = (ground arith, ground arith)

pub Quiet-handle_finvote : (sv : Services) (m : FinVote) → Respects Quiet (handle_finvote sv m)
unfolding handle_finvote
Quiet-handle_finvote sv m c = (ground arith, ground arith)

pub Quiet-first_proposal : Respects Quiet first_proposal
unfolding first_proposal generator_block
Quiet-first_proposal c = (ground arith, ground arith)

pub Quiet-run_vote : (i j : Int64) (n : NodeId) (v : SpbVote) → Respects Quiet (run_vote i j n v)
unfolding run_vote process_vote
Quiet-run_vote i j n v c = (ground arith, ground arith)

pub Quiet-run_proposal :
    (i j : Int64) (n : NodeId) (p : SpbProposal) → Respects Quiet (run_proposal i j n p)
unfolding run_proposal process_proposal accept_block
Quiet-run_proposal i j n p c =
    let s : Spb = spb_or_new c i j n in
    (ground (arith, commits-go s s.unhandle_proposal s.unhandle_vote), ground arith)
