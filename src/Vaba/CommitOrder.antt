-- ===== src/Vaba/CommitOrder.antt =====
-- core/vaba/consensus/core.go with commitor.go: the blocks that a node commits over a run.
use bft_mvba.Methods.{
  Identity, core, later, start, Respects, Respects-if, lift, mixed-bind, mixed-next, return_nil,
  ◌>>=◌, ◌>>◌,
}
use bft_mvba.Base.{
  ◌+◌, ◌*◌, ◌-◌, ◌^◌, ◌<◌, ◌==◌, ◌&&◌, List, ◌∷◌, ◌++◌, length, map, some, err, err_signature,
  if◌then◌else◌, ◌≡◌, refl, arith,
}
use bft_mvba.Pool.{Pool}
use bft_mvba.Store.{History}
use bft_mvba.Committor.Order.{count_up}
use bft_mvba.Committor.Runs.{commits_in_order}
use bft_mvba.Vaba.Elector.{leader}
use bft_mvba.Vaba.Messages.{
  Block, Proposal, ViewChange, Halt, Messgae, verify_message, msg_type, phase_one_falg,
}
use bft_mvba.Vaba.Effects.{Effect}
use bft_mvba.Vaba.Core.{
  Services, Core, M, new_core, message_filter, commit_call, finish_epoch, give_up_epoch, keep_lock,
  count_view_change, handle_view_change, handle_halt, late_block, accept_proposal, handle_proposal,
  handle_vote, handle_done, handle_skip_share, handle_skip, handle_elect_share, dispatch, receive,
  first_proposal, run_proposal, run_vote,
}
use bft_mvba.Vaba.Runs.{Event, begin, message, proposal_task, vote_task, run_event, Reaches}
use bft_mvba.Vaba.Quiet.{
  commits, Quiet, Quiet-accept_proposal, Quiet-handle_vote, Quiet-handle_done,
  Quiet-handle_skip_share, Quiet-handle_skip, Quiet-handle_elect_share, Quiet-keep_lock,
  Quiet-first_proposal, Quiet-run_proposal, Quiet-run_vote,
}
use bft_mvba.Vaba.Fed.{
  epoch_of_block, Few, Few-more, Few-chain, Few-Mixes, none_given, nothing, Few-commit_call,
  Few-finish_epoch, Few-give_up_epoch,
}

Few-handle_view_change :
    (sv : Services) (v : ViewChange) → Respects (Few 2) (handle_view_change sv v)
unfolding handle_view_change
Few-handle_view_change sv v c =
    Respects-if (Few 2) (message_filter c v.epoch) return_nil
      (if c.commit_flag v.epoch then return_nil else handling) (λ _. nothing 2)
      (λ _.
        Respects-if (Few 2) (c.commit_flag v.epoch) return_nil handling (λ _. nothing 2)
          (λ _.
            mixed-next (Few-Mixes 0 2) (count_view_change v.epoch)
              (finish >> (keep_lock v >> give_up))
              (none_given (count_view_change v.epoch) (λ k. (refl, refl)) 0)
              (mixed-next (Few-Mixes 1 1) finish (keep_lock v >> give_up) Few-finish (
                mixed-next (Few-Mixes 0 1) (keep_lock v) give_up
                  (none_given (keep_lock v) (Quiet-keep_lock v) 0) (Few-give_up_epoch sv v)))))
      c
  where
    finish : M (Unit {0})
    finish = if v.is_commit then finish_epoch sv v.epoch v.leader v.block_hash else return_nil

    give_up : M (Unit {0})
    give_up = give_up_epoch sv v

    handling : M (Unit {0})
    handling = count_view_change v.epoch >> (finish >> (keep_lock v >> give_up))

    Few-finish : Respects (Few 1) finish
    Few-finish =
        Respects-if (Few 1) v.is_commit (finish_epoch sv v.epoch v.leader v.block_hash) return_nil
          (λ _. Few-finish_epoch sv v.epoch v.leader v.block_hash) (λ _. nothing 1)

Few-handle_halt : (sv : Services) (h : Halt) → Respects (Few 1) (handle_halt sv h)
unfolding handle_halt
Few-handle_halt sv h c =
    let finish : M (Unit {0}) = finish_epoch sv h.epoch h.leader (some h.block_hash) in
    Respects-if (Few 1) (message_filter c h.epoch) return_nil
      (if c.commit_flag h.epoch then return_nil else finish) (λ _. nothing 1)
      (λ _.
        Respects-if (Few 1) (c.commit_flag h.epoch) return_nil finish (λ _. nothing 1)
          (λ _. Few-finish_epoch sv h.epoch h.leader (some h.block_hash)))
      c

Few-late_block : (p : Proposal) → Respects (Few 1) (late_block p)
Few-late_block p c =
    Respects-if (Few 1)
      (p.phase == phase_one_falg && c.commit_flag p.epoch && leader c.elector p.epoch == p.author)
      (commit_call p.b) return_nil (λ _. Few-commit_call p.b) (λ _. nothing 1) c

Few-handle_proposal : (sv : Services) (p : Proposal) → Respects (Few 1) (handle_proposal sv p)
unfolding handle_proposal
Few-handle_proposal sv p =
    let rest : M (Unit {0}) =
      core >>= λ c. if message_filter c p.epoch then return_nil else accept_proposal sv p in
    mixed-next (Few-Mixes 1 0) (late_block p) rest (Few-late_block p) (
      none_given rest
        (λ c. let q = Quiet-accept_proposal sv p c in (ground (arith, q), ground (arith, q))) 0)

still-Few : (m : M (Unit {0})) → Respects Quiet m → Respects (Few 2) m
still-Few m q = none_given m q 2

once-Few : (m : M (Unit {0})) → Respects (Few 1) m → Respects (Few 2) m
once-Few m h c = Few-more 1 2 (omega arith) c (m c).1 (m c).2 (h c)

Few-dispatch : (sv : Services) (m : Messgae) → Respects (Few 2) (dispatch sv m)
unfolding dispatch
Few-dispatch sv (Messgae.proposal m) = once-Few (handle_proposal sv m) (Few-handle_proposal sv m)
Few-dispatch sv (Messgae.vote m) = still-Few (handle_vote m) (Quiet-handle_vote m)
Few-dispatch sv (Messgae.done m) = still-Few (handle_done m) (Quiet-handle_done m)
Few-dispatch sv (Messgae.skip_share m) = still-Few (handle_skip_share m) (Quiet-handle_skip_share m)
Few-dispatch sv (Messgae.skip m) = still-Few (handle_skip m) (Quiet-handle_skip m)
Few-dispatch sv (Messgae.elect_share m) =
    still-Few (handle_elect_share m) (Quiet-handle_elect_share m)
Few-dispatch sv (Messgae.view_change m) = Few-handle_view_change sv m
Few-dispatch sv (Messgae.halt m) = once-Few (handle_halt sv m) (Few-handle_halt sv m)

Few-receive : (sv : Services) (m : Messgae) → Respects (Few 2) (receive sv m)
unfolding receive
Few-receive sv m c =
    mixed-bind (Few-Mixes 0 2) (lift (verify_message c.sig_service c.committee m))
      (λ valid. if valid then dispatch sv m else refuse)
      (none_given (lift (verify_message c.sig_service c.committee m)) (λ k. (refl, refl)) 0)
      (λ valid.
        Respects-if (Few 2) valid (dispatch sv m) refuse (λ _. Few-dispatch sv m)
          (λ _. still-Few refuse (λ k. (refl, refl))))
      c
  where
    refuse : M (Unit {0})
    refuse = lift (err (err_signature (msg_type m)))

Few-run_event : (sv : Services) (ev : Event) → Respects (Few 2) (run_event sv ev)
unfolding run_event
Few-run_event sv begin = still-Few first_proposal Quiet-first_proposal
Few-run_event sv (message m) = Few-receive sv m
Few-run_event sv (proposal_task e n p) = still-Few (run_proposal e n p) (Quiet-run_proposal e n p)
Few-run_event sv (vote_task e n v) = still-Few (run_vote e n v) (Quiet-run_vote e n v)

-- A run gives the commitor at most two blocks for each event.
Reaches-Few :
    (sv : Services) {c d : Core} {evs : List Event} {es : List Effect}
    → Reaches sv c d evs es
    → Few (length evs * 2) c d es
Reaches-Few sv {c} start = nothing 0 c
Reaches-Few sv {c} (later {d} {evs} {es} ev r) =
    let k : Core = (run_event sv ev d).1 in
    let out : List Effect = (run_event sv ev d).2 in
    Few-more (length evs * 2 + 2) (length (ev ∷ evs) * 2) (omega arith) c k (es ++ out)
      (Few-chain (length evs * 2) 2 c d k es out (Reaches-Few sv r) (Few-run_event sv ev d))

-- Over any run of a new node of VABA of fewer than 2 ^ 61 - 1 events, the blocks that go out to
-- be committed have the epochs 0, 1, 2 and so on, none twice and none left out.
pub vaba_commits_consecutive :
    (sv : Services) (n : Identity) (h : History) (pool : Pool) {c : Core} {evs : List Event}
    {es : List Effect}
    → Reaches sv (new_core n h pool) c evs es
    → length evs < 2 ^ 61 - 1
    → map (λ (b : Block). b.epoch) (commits es) ≡ count_up 0 (length (commits es))
unfolding new_core
vaba_commits_consecutive sv n h pool reach small =
    let (bs, few, fed) = Reaches-Few sv reach in
    let done = (commits_in_order epoch_of_block bs (omega arith)).0 in rw fed at done
