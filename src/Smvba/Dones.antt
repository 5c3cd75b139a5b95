-- ===== src/Smvba/Dones.antt =====
-- core/smvba/consensus/core.go: how often a node tells that it is done with a round.
use bft_mvba.Methods.{IsTrace, Respects, Respects-bind, Respects-next}
use bft_mvba.Base.{
  ℕ, ◌+◌, Option-cases, inl, inr, inc, ◌&&◌, List, [], ◌∷◌, ◌++◌, Option, none, some, if◌then◌else◌,
  ◌==◌, Int64, ◌≡◌, refl, arith,
}
use bft_mvba.Committee.{NodeId}
use bft_mvba.Crypto.{Digest}
use bft_mvba.Smvba.Messages.{
  Block, SpbProposal, SpbVote, Prevote, FinVote, Halt, Done, Finish, ElectShare,
}
use bft_mvba.Smvba.Signing.{
  Messgae, new_done, new_elect_share, new_halt, new_fin_vote, new_spb_proposal, new_spb_vote,
  new_finish,
}
use bft_mvba.Smvba.Effects.{Effect, send}
use bft_mvba.Smvba.Spb.{
  Spb, process_proposal, process_vote, get_block_hash, accept_block, go_proposals, go_votes,
}
use bft_mvba.Committor.{commit}
use bft_mvba.Smvba.Runs.{handle_halt-Respects}
use bft_mvba.Smvba.Core.{
  spb_or_new, fetch_block, put_back_own, output_block, late_block, accept_proposal, Services, Core,
  store_block, get_spb_instance, generator_block, commit_block, commit_effects, get_block,
  invoke_done_and_share, process_leader, handle_output, advance_next_epoch, handle_spb_proposal,
  handle_spb_vote, handle_finish, handle_done, handle_elect_share, handle_prevote, handle_finvote,
  handle_halt, dispatch, run_proposal, run_vote,
}

-- How often a `Done` of the round is sent to everybody.
abbrev is_done : Int64 → Int64 → Effect → ℕ
is_done e r (send _ _ (Messgae.done d)) = if d.epoch == e && d.round == r then 1 else 0
is_done e r _ = 0

abbrev pub dones : Int64 → Int64 → List Effect → ℕ
dones e r [] = 0
dones e r (x ∷ xs) = is_done e r x + dones e r xs

dones-append :
    (e r : Int64) (xs ys : List Effect) → dones e r (xs ++ ys) ≡ dones e r xs + dones e r ys
dones-append e r [] ys = omega arith
dones-append e r (x ∷ xs) ys = omega (arith, dones-append e r xs ys)

dones-commit : (e r : Int64) (bs : List Block) → dones e r (commit_effects bs) ≡ 0
dones-commit e r [] = refl
dones-commit e r (b ∷ bs) = omega (arith, dones-commit e r bs)

-- 1 for a round whose flag is set.
abbrev pub done_bit : Int64 → Int64 → Core → ℕ
done_bit e r c = if c.done_flags e r then 1 else 0

-- What a method does to the flag, it does with one message.
abbrev pub Counted : Int64 → Int64 → Core → Core → List Effect → Type 0
Counted e r c d es = dones e r es + done_bit e r c ≡ done_bit e r d

dones-advance_next_epoch :
    (e r : Int64) (i : Int64) (c : Core)
    → Counted e r c (advance_next_epoch i c).1 (advance_next_epoch i c).2
unfolding advance_next_epoch generator_block new_spb_proposal
dones-advance_next_epoch e r i c = ground arith

dones-handle_spb_vote :
    (e r : Int64) (v : SpbVote) (c : Core)
    → Counted e r c (handle_spb_vote v c).1 (handle_spb_vote v c).2
unfolding handle_spb_vote get_spb_instance
dones-handle_spb_vote e r v c = ground arith

dones-handle_finish :
    (e r : Int64) (f : Finish) (c : Core)
    → Counted e r c (handle_finish f c).1 (handle_finish f c).2
unfolding handle_finish invoke_done_and_share new_done new_elect_share
dones-handle_finish e r f c = ground arith

dones-handle_done :
    (e r : Int64) (m : Done) (c : Core) → Counted e r c (handle_done m c).1 (handle_done m c).2
unfolding handle_done invoke_done_and_share process_leader get_spb_instance new_done new_elect_share
dones-handle_done e r m c = ground arith

dones-handle_elect_share :
    (e r : Int64) (m : ElectShare) (c : Core)
    → Counted e r c (handle_elect_share m c).1 (handle_elect_share m c).2
unfolding handle_elect_share
dones-handle_elect_share e r m c = ground arith

dones-handle_prevote :
    (e r : Int64) (m : Prevote) (c : Core)
    → Counted e r c (handle_prevote m c).1 (handle_prevote m c).2
unfolding handle_prevote new_fin_vote
dones-handle_prevote e r m c = ground arith

dones-handle_finvote :
    (e r : Int64) (sv : Services) (m : FinVote) (c : Core)
    → Counted e r c (handle_finvote sv m c).1 (handle_finvote sv m c).2
unfolding handle_finvote new_halt
dones-handle_finvote e r sv m c = ground arith

pub dones-commit_block :
    (e r : Int64) (b : Block) (c : Core) → Counted e r c (commit_block b c).1 (commit_block b c).2
unfolding commit_block
dones-commit_block e r b c =
    omega (arith, dones-commit e r (commit (λ (x : Block). x.epoch) c.commitor b).0)

pub Counted-IsTrace : (e r : Int64) → IsTrace (Counted e r)
Counted-IsTrace e r = record {
  still = λ c. omega arith;
  chain = λ c d k es fs h g. omega (arith, dones-append e r es fs, h, g);
}

dones-put_back_own :
    (e r : Int64) (sv : Services) (i : Int64) (c : Core)
    → Counted e r c (put_back_own sv i c).1 (put_back_own sv i c).2
unfolding get_block get_spb_instance get_block_hash
dones-put_back_own e r sv i c = ground arith

dones-output_block :
    (e r : Int64) (sv : Services) (i : Int64) (b : Option Block)
    → Respects (Counted e r) (output_block sv i b)
dones-output_block e r sv i none = λ c. omega arith
dones-output_block e r sv i (some b) =
    Respects-next (Counted-IsTrace e r) (commit_block b) _ (dones-commit_block e r b)
      (λ c. ground (arith, dones-put_back_own e r sv i c))

dones-handle_output :
    (e r : Int64) (sv : Services) (i : Int64) (d : Digest)
    → Respects (Counted e r) (handle_output sv i d)
unfolding handle_output
dones-handle_output e r sv i d =
    Respects-bind (Counted-IsTrace e r) (fetch_block sv d) (output_block sv i) (λ c. omega arith)
      (dones-output_block e r sv i)

dones-handle_halt :
    (e r : Int64) (sv : Services) (h : Halt) → Respects (Counted e r) (handle_halt sv h)
dones-handle_halt e r sv h =
    handle_halt-Respects (Counted-IsTrace e r) sv h (λ c. omega arith)
      (dones-handle_output e r sv h.epoch h.block_hash) (λ c. omega arith)
      (dones-advance_next_epoch e r (inc h.epoch))

dones-accept_proposal :
    (e r : Int64) (sv : Services) (p : SpbProposal) → Respects (Counted e r) (accept_proposal sv p)
unfolding store_block get_spb_instance
dones-accept_proposal e r sv p c = ground arith

dones-late_block : (e r : Int64) (p : SpbProposal) → Respects (Counted e r) (late_block p)
dones-late_block e r p c = elim (Option-cases p.b) [
  | inl bare ↦ ground arith
  | inr (b, there) ↦ ground (arith, dones-commit_block e r b c)
]

dones-handle_spb_proposal :
    (e r : Int64) (sv : Services) (p : SpbProposal)
    → Respects (Counted e r) (handle_spb_proposal sv p)
unfolding handle_spb_proposal
dones-handle_spb_proposal e r sv p =
    Respects-next (Counted-IsTrace e r) (late_block p) _ (dones-late_block e r p)
      (λ c. ground (arith, dones-accept_proposal e r sv p c))

pub dones-dispatch :
    (e r : Int64) (sv : Services) (m : Messgae) → Respects (Counted e r) (dispatch sv m)
unfolding dispatch
dones-dispatch e r sv (Messgae.spb_proposal m) = dones-handle_spb_proposal e r sv m
dones-dispatch e r sv (Messgae.spb_vote m) = dones-handle_spb_vote e r m
dones-dispatch e r sv (Messgae.finish m) = dones-handle_finish e r m
dones-dispatch e r sv (Messgae.done m) = dones-handle_done e r m
dones-dispatch e r sv (Messgae.elect_share m) = dones-handle_elect_share e r m
dones-dispatch e r sv (Messgae.prevote m) = dones-handle_prevote e r m
dones-dispatch e r sv (Messgae.fin_vote m) = dones-handle_finvote e r sv m
dones-dispatch e r sv (Messgae.halt m) = dones-handle_halt e r sv m

dones-go :
    (e r : Int64) (s : Spb) (ps : List SpbProposal) (vs : List SpbVote)
    → dones e r (go_proposals s ps ++ go_votes s vs) ≡ 0
dones-go e r s [] [] = refl
dones-go e r s [] (v ∷ vs) = omega (arith, dones-go e r s [] vs)
dones-go e r s (p ∷ ps) vs = omega (arith, dones-go e r s ps vs)

pub dones-run_proposal :
    (e r i j : Int64) (n : NodeId) (p : SpbProposal) → Respects (Counted e r) (run_proposal i j n p)
unfolding run_proposal process_proposal accept_block new_spb_vote
dones-run_proposal e r i j n p c =
    let s : Spb = spb_or_new c i j n in
    ground (arith, dones-go e r s s.unhandle_proposal s.unhandle_vote)

pub dones-run_vote :
    (e r i j : Int64) (n : NodeId) (v : SpbVote) → Respects (Counted e r) (run_vote i j n v)
unfolding run_vote process_vote new_spb_proposal new_finish
dones-run_vote e r i j n v c = ground arith
