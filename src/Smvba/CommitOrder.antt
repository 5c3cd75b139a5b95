-- ===== src/Smvba/CommitOrder.antt =====
-- core/smvba/consensus/core.go with commitor.go: the blocks that a node commits over a run.
use mathlib.Core.List.{append-nil}
use mathlib.Core.Path.{ap₂}
use bft_mvba.Methods.{
  Identity, later, start, Mixes, Respects, Respects-if, Respects-next, lift, mixed-bind, mixed-next,
  return_nil, ◌>>◌,
}
use bft_mvba.Base.{
  ◌-◌, ◌^◌, ◌≤◌, ◌<◌, ◌==◌, ◌&&◌, inc, List, [], ◌∷◌, ◌++◌, length, length-append, map, Option,
  none, some, err, err_signature, if◌then◌else◌, Int64, ◌≡◌, refl, ◌∙◌, sym, arith, ap,
}
use bft_mvba.Pool.{Pool}
use bft_mvba.Store.{History}
use bft_mvba.Crypto.{Digest}
use bft_mvba.Committor.{commit}
use bft_mvba.Committor.Order.{count_up}
use bft_mvba.Committor.Runs.{run_commits, run_commits-append, commits_in_order}
use bft_mvba.Smvba.Elector.{leader}
use bft_mvba.Smvba.Messages.{spb_one_phase, Block, SpbProposal, Halt}
use bft_mvba.Smvba.Signing.{Messgae, verify_message, msg_type}
use bft_mvba.Smvba.Effects.{Effect}
use bft_mvba.Smvba.Core.{
  Services, Core, M, new_core, message_filter, commit_block, commit_effects, fetch_block,
  output_block, handle_output, set_chosen, set_halted, advance_next_epoch, handle_halt, late_block,
  handle_spb_proposal, dispatch, receive, first_proposal, with_block, handle_spb_vote,
  handle_finish, handle_done, handle_elect_share, handle_prevote, handle_finvote, run_proposal,
  run_vote,
}
use bft_mvba.Smvba.Runs.{Event, begin, message, proposal_task, vote_task, run_event, Reaches}
use bft_mvba.Smvba.Quiet.{
  commits, commits-append, Quiet, Quiet-IsTrace, Quiet-put_back_own, Quiet-advance_next_epoch,
  Quiet-accept_proposal, Quiet-handle_spb_vote, Quiet-handle_finish, Quiet-handle_done,
  Quiet-handle_elect_share, Quiet-handle_prevote, Quiet-handle_finvote, Quiet-first_proposal,
  Quiet-run_vote, Quiet-run_proposal,
}

abbrev epoch_of_block : Block → Int64
epoch_of_block b = b.epoch

-- The commitor was called with these blocks, and what it let out went out.
abbrev Fed : List Block → Core → Core → List Effect → Type 0
Fed bs c d es = run_commits epoch_of_block c.commitor bs ≡ (commits es, d.commitor)

-- At most one block was given to the commitor.
abbrev One : Core → Core → List Effect → Type 0
One c d es = (bs : List Block) × (length bs ≤ 1) × Fed bs c d es

One-Quiet : (c d : Core) (es : List Effect) → Quiet c d es → One c d es
unfolding run_commits
One-Quiet c d es q = ([], omega arith, ap₂ (λ x y. (x, y)) (sym q.0) (sym q.1))

Quiet-first : Mixes Quiet One One
Quiet-first = record {
  stop = One-Quiet;
  go = λ c d k es fs q (bs, few, fed). (bs, few, rw (commits-append es fs, q.0, ← q.1) fed);
}

Quiet-last : Mixes One Quiet One
Quiet-last = record {
  stop = λ c d es h. h;
  go = λ c d k es fs (bs, few, fed) q.
      (bs, few, rw (commits-append es fs, q.0, q.1, append-nil (commits es)) fed);
}

commits-commit_effects : (bs : List Block) → commits (commit_effects bs) ≡ bs
commits-commit_effects [] = refl
commits-commit_effects (b ∷ bs) = ap (◌∷◌ b) (commits-commit_effects bs)

One-commit_block : (b : Block) → Respects One (commit_block b)
unfolding commit_block run_commits
One-commit_block b c = (
  b ∷ [],
  omega arith,
  rw
      (
        commits-commit_effects (commit epoch_of_block c.commitor b).0,
        append-nil (commit epoch_of_block c.commitor b).0,
      )
      refl,
)

One-output_block :
    (sv : Services) (i : Int64) (b : Option Block) → Respects One (output_block sv i b)
One-output_block sv i none = λ c. One-Quiet c c [] (refl, refl)
One-output_block sv i (some b) =
    mixed-next Quiet-last (commit_block b) _ (One-commit_block b)
      (λ c. let q = Quiet-put_back_own sv i c in (ground (arith, q), ground (arith, q)))

One-handle_output : (sv : Services) (i : Int64) (d : Digest) → Respects One (handle_output sv i d)
unfolding handle_output
One-handle_output sv i d =
    mixed-bind Quiet-first (fetch_block sv d) (output_block sv i) (λ c. (refl, refl))
      (One-output_block sv i)

One-handle_halt : (sv : Services) (h : Halt) → Respects One (handle_halt sv h)
unfolding handle_halt
One-handle_halt sv h c =
    Respects-if One (message_filter c h.epoch) return_nil
      (if c.halt_flags h.epoch then return_nil else halting) (λ _. none_given)
      (λ _.
        Respects-if One (c.halt_flags h.epoch) return_nil halting (λ _. none_given)
          (λ _.
            mixed-next Quiet-first (set_chosen h) (output >> last) (λ k. (refl, refl))
              (mixed-next Quiet-last output last (One-handle_output sv h.epoch h.block_hash) (
                Respects-next Quiet-IsTrace (set_halted h.epoch) go_on (λ k. (refl, refl))
                  (Quiet-advance_next_epoch (inc h.epoch))))))
      c
  where
    output : M (Unit {0})
    output = handle_output sv h.epoch h.block_hash

    go_on : M (Unit {0})
    go_on = advance_next_epoch (inc h.epoch)

    last : M (Unit {0})
    last = set_halted h.epoch >> go_on

    halting : M (Unit {0})
    halting = set_chosen h >> (output >> last)

    none_given : Respects One return_nil
    none_given d = One-Quiet d d [] (refl, refl)

One-with_block : (b : Option Block) → Respects One (with_block b commit_block)
One-with_block none = λ c. One-Quiet c c [] (refl, refl)
One-with_block (some b) = One-commit_block b

One-late_block : (p : SpbProposal) → Respects One (late_block p)
One-late_block p c =
    Respects-if One
      (p.phase == spb_one_phase
        && c.halt_flags p.epoch
        && leader c.elector p.epoch p.round == p.author)
      (with_block p.b commit_block) return_nil (λ _. One-with_block p.b)
      (λ _ d. One-Quiet d d [] (refl, refl)) c

One-handle_spb_proposal :
    (sv : Services) (p : SpbProposal) → Respects One (handle_spb_proposal sv p)
unfolding handle_spb_proposal
One-handle_spb_proposal sv p =
    mixed-next Quiet-last (late_block p) _ (One-late_block p)
      (λ c. let q = Quiet-accept_proposal sv p c in (ground (arith, q), ground (arith, q)))

still-One : (m : M (Unit {0})) → Respects Quiet m → Respects One m
still-One m q c = One-Quiet c (m c).1 (m c).2 (q c)

One-dispatch : (sv : Services) (m : Messgae) → Respects One (dispatch sv m)
unfolding dispatch
One-dispatch sv (Messgae.spb_proposal m) = One-handle_spb_proposal sv m
One-dispatch sv (Messgae.spb_vote m) = still-One (handle_spb_vote m) (Quiet-handle_spb_vote m)
One-dispatch sv (Messgae.finish m) = still-One (handle_finish m) (Quiet-handle_finish m)
One-dispatch sv (Messgae.done m) = still-One (handle_done m) (Quiet-handle_done m)
One-dispatch sv (Messgae.elect_share m) =
    still-One (handle_elect_share m) (Quiet-handle_elect_share m)
One-dispatch sv (Messgae.prevote m) = still-One (handle_prevote m) (Quiet-handle_prevote m)
One-dispatch sv (Messgae.fin_vote m) = still-One (handle_finvote sv m) (Quiet-handle_finvote sv m)
One-dispatch sv (Messgae.halt m) = One-handle_halt sv m

One-receive : (sv : Services) (m : Messgae) → Respects One (receive sv m)
unfolding receive
One-receive sv m c =
    mixed-bind Quiet-first (lift (verify_message c.sig_service c.committee m))
      (λ valid. if valid then dispatch sv m else refuse) (λ k. (refl, refl))
      (λ valid.
        Respects-if One valid (dispatch sv m) refuse (λ _. One-dispatch sv m)
          (λ _ d. One-Quiet d d [] (refl, refl)))
      c
  where
    refuse : M (Unit {0})
    refuse = lift (err (err_signature (msg_type m)))

One-run_event : (sv : Services) (ev : Event) → Respects One (run_event sv ev)
unfolding run_event
One-run_event sv begin = still-One first_proposal Quiet-first_proposal
One-run_event sv (message m) = One-receive sv m
One-run_event sv (proposal_task i j n p) =
    still-One (run_proposal i j n p) (Quiet-run_proposal i j n p)
One-run_event sv (vote_task i j n v) = still-One (run_vote i j n v) (Quiet-run_vote i j n v)

Fed-append :
    (bs cs : List Block) (c d k : Core) (es fs : List Effect)
    → Fed bs c d es
    → Fed cs d k fs
    → Fed (bs ++ cs) c k (es ++ fs)
Fed-append bs cs c d k es fs h g =
    run_commits-append epoch_of_block c.commitor bs cs ∙ rw (h, g, commits-append es fs) refl

-- A run gives the commitor at most one block for each event.
Reaches-Fed :
    (sv : Services) {c d : Core} {evs : List Event} {es : List Effect}
    → Reaches sv c d evs es
    → (bs : List Block) × (length bs ≤ length evs) × Fed bs c d es
Reaches-Fed sv start = ([], omega arith, unfold run_commits in refl)
Reaches-Fed sv {c} (later {d} {evs} {es} ev r) =
    let (bs, few, fed) = Reaches-Fed sv r in
    let (cs, one, more) = One-run_event sv ev d in
    (
      bs ++ cs,
      omega (arith, length-append bs cs),
      Fed-append bs cs c d (run_event sv ev d).1 es (run_event sv ev d).2 fed more,
    )

-- Over any run of a new node of fewer than 2 ^ 62 - 1 events, the blocks that go out to be
-- committed have the epochs 0, 1, 2 and so on, none twice and none left out.
pub commits_consecutive :
    (sv : Services) (n : Identity) (h : History) (pool : Pool) {c : Core} {evs : List Event}
    {es : List Effect}
    → Reaches sv (new_core n h pool) c evs es
    → length evs < 2 ^ 62 - 1
    → map (λ (b : Block). b.epoch) (commits es) ≡ count_up 0 (length (commits es))
unfolding new_core
commits_consecutive sv n h pool reach small =
    let (bs, few, fed) = Reaches-Fed sv reach in
    let done = (commits_in_order epoch_of_block bs (omega arith)).0 in rw fed at done
