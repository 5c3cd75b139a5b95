-- ===== src/Vaba/Quiet.antt =====
-- core/vaba/consensus/core.go: the methods that commit nothing.
use bft_mvba.Methods.{Identity, gather, gather-append, IsTrace, Respects}
use bft_mvba.Base.{List, [], ◌∷◌, ◌++◌, Option, none, some, Int64, Int8, ◌≡◌, refl, ◌∙◌, arith}
use mathlib.Core.Path.{ap₂}
use bft_mvba.Committee.{NodeId}
use bft_mvba.Crypto.{Digest}
use bft_mvba.Vaba.Messages.{
  phase_one_falg, Block, Proposal, Vote, Done, SkipShare, Skip, ElectShare, ViewChange,
}
use bft_mvba.Vaba.Effects.{Effect, to_commit}
use bft_mvba.Vaba.Promote.{
  process_proposal, process_vote, hold_block, later_phase, reply, on_quorum, go_proposals, go_votes,
  Promote,
}
use bft_mvba.Vaba.Core.{
  Services, Core, store_block, get_pb_instance, generator_block, set_skip, invoke_elect, skip_on,
  invoke_view_change, advance_next_epoch, ignore_error, put_back_own, accept_proposal, handle_vote,
  handle_done, handle_skip_share, handle_skip, handle_elect_share, keep_lock, first_proposal,
  run_proposal, run_vote, pb_or_new,
}

abbrev pub committed_by : Effect → List Block
committed_by (to_commit b) = b ∷ []
committed_by _ = []

-- What goes out to be committed.
abbrev pub commits : List Effect → List Block
commits = gather committed_by

-- Nothing is committed, and nothing is put aside for it.
abbrev pub Quiet : Core → Core → List Effect → Type 0
Quiet c d es = (commits es ≡ []) × (d.commitor ≡ c.commitor)

pub Quiet-IsTrace : IsTrace Quiet
Quiet-IsTrace = record {
  still = λ c. (refl, refl);
  chain = λ c d k es fs h g. (gather-append committed_by es fs ∙ ap₂ ◌++◌ h.0 g.0, g.1 ∙ h.1);
}

pub Quiet-advance_next_epoch :
    (sv : Services) (e : Int64) (h : Option Digest)
    → Respects Quiet (ignore_error (advance_next_epoch sv e h))
unfolding advance_next_epoch generator_block
Quiet-advance_next_epoch sv e none c = (ground arith, ground arith)
Quiet-advance_next_epoch sv e (some d) c = (ground arith, ground arith)

pub Quiet-put_back_own : (sv : Services) (e : Int64) → Respects Quiet (put_back_own sv e)
unfolding get_pb_instance
Quiet-put_back_own sv e c = (ground arith, ground arith)

pub Quiet-accept_proposal : (sv : Services) (p : Proposal) → Respects Quiet (accept_proposal sv p)
unfolding store_block get_pb_instance
Quiet-accept_proposal sv p c = (ground arith, ground arith)

pub Quiet-handle_vote : (v : Vote) → Respects Quiet (handle_vote v)
unfolding handle_vote get_pb_instance
Quiet-handle_vote v c = (ground arith, ground arith)

pub Quiet-handle_done : (d : Done) → Respects Quiet (handle_done d)
unfolding handle_done
Quiet-handle_done d c = (ground arith, ground arith)

pub Quiet-handle_skip_share : (s : SkipShare) → Respects Quiet (handle_skip_share s)
unfolding handle_skip_share skip_on set_skip invoke_elect
Quiet-handle_skip_share s c = (ground arith, ground arith)

pub Quiet-handle_skip : (s : Skip) → Respects Quiet (handle_skip s)
unfolding handle_skip skip_on set_skip invoke_elect
Quiet-handle_skip s c = (ground arith, ground arith)

pub Quiet-handle_elect_share : (m : ElectShare) → Respects Quiet (handle_elect_share m)
unfolding handle_elect_share invoke_view_change get_pb_instance
Quiet-handle_elect_share m c = (ground arith, ground arith)

pub Quiet-keep_lock : (v : ViewChange) → Respects Quiet (keep_lock v)
Quiet-keep_lock v c = (ground arith, ground arith)

pub Quiet-first_proposal : Respects Quiet first_proposal
unfolding first_proposal generator_block
Quiet-first_proposal c = (ground arith, ground arith)

commits-go :
    (n : Identity) (s : Promote) (ps : List Proposal) (vs : List Vote) (d : Digest)
    → commits (go_proposals s ps ++ (go_votes s vs ++ reply n s d phase_one_falg ∷ [])) ≡ []
unfolding reply
commits-go n s [] [] d = ground arith
commits-go n s [] (v ∷ vs) d = commits-go n s [] vs d
commits-go n s (p ∷ ps) vs d = commits-go n s ps vs d

commits-later_phase :
    (n : Identity) (s : Promote) (d : Digest) (k : Int8) → commits (later_phase n s d k).1 ≡ []
unfolding later_phase reply
commits-later_phase n s d k = ground arith

pub Quiet-run_proposal :
    (e : Int64) (n : NodeId) (p : Proposal) → Respects Quiet (run_proposal e n p)
unfolding run_proposal process_proposal hold_block
Quiet-run_proposal e n p c =
    let s : Promote = pb_or_new c e n in
    (
      grind (
        arith,
        commits-go c.identity s s.unhandle_proposal s.unhandle_vote,
        λ (d : Digest). commits-later_phase c.identity s d p.phase,
      ),
      ground arith,
    )

pub Quiet-run_vote : (e : Int64) (n : NodeId) (v : Vote) → Respects Quiet (run_vote e n v)
unfolding run_vote process_vote on_quorum
Quiet-run_vote e n v c = (ground arith, ground arith)
