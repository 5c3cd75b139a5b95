-- ===== src/Mvba/CommitOrder.antt =====
-- core/mvba/consensus/core.go with commitor.go: the blocks that a node commits over a run.
use mathlib.Core.List.{append-nil}
use mathlib.Core.Path.{ap₂}
use bft_mvba.Methods.{gather, gather-append, IsTrace, Mixes, Respects, start, later}
use bft_mvba.Base.{
  ◌-◌, ◌^◌, ◌≤◌, ◌<◌, List, [], ◌∷◌, ◌++◌, length, length-append, map, Option, Int64, ◌≡◌, refl,
  ◌∙◌, sym, arith, ap,
}
use bft_mvba.Pool.{Pool}
use bft_mvba.Store.{History}
use bft_mvba.Committee.{NodeId}
use bft_mvba.Committor.Order.{count_up}
use bft_mvba.Methods.{Identity}
use bft_mvba.Mvba.Messages.{Uint8, Block}
use bft_mvba.Mvba.Effects.{Effect, to_commit, CbcTask, AbaTask, CbcBack}
use bft_mvba.Mvba.Commits.{commit, run_calls, epoch_of_entry}
use bft_mvba.Mvba.CommitRuns.{run_calls-append, mvba_commits_in_order, length-given_blocks}
use bft_mvba.Mvba.Cbc.{Cbc, make_vote, process_ready, process_final, run_cbc}
use bft_mvba.Mvba.Cbc.Shows.{done_by}
use bft_mvba.Mvba.Tasks.{run_cbc_task-done_by, gather-run_cbc}
use bft_mvba.Mvba.Aba.{process_aba_val, process_aba_mux, process_coin, process_halt, run_aba}
use bft_mvba.Mvba.Core.{
  Services, Core, M, new_core, commit_block, commit_effects, store_block, generate_block,
  get_cbc_instance, get_aba_instance, invoke_stage_two, invoke_aba_val, process_cbc_back,
  abvance_next_epoch, first_proposal, run_cbc_task, run_aba_task, cbc_or_new,
}
use bft_mvba.Mvba.Runs.{
  Event, begin, message, cbc_result, aba_result, cbc_task, aba_task, run_event, Reaches,
}
use bft_mvba.Mvba.Pieces.{Pieces, receive_message-Respects, process_aba_back-Respects}

abbrev committed : Effect → List (Int64 × Block)
committed (to_commit e b) = (e, b) ∷ []
committed _ = []

-- What goes out to be committed, with the epochs.
abbrev pub commits : List Effect → List (Int64 × Block)
commits = gather committed

commits-commit_effects : (bs : List (Int64 × Block)) → commits (commit_effects bs) ≡ bs
commits-commit_effects [] = refl
commits-commit_effects ((e, b) ∷ bs) = ap (◌∷◌ (e, b)) (commits-commit_effects bs)

-- Nothing is committed, and nothing is put aside for it.
abbrev Quiet : Core → Core → List Effect → Type 0
Quiet c d es = (commits es ≡ []) × (d.commitor ≡ c.commitor)

Quiet-IsTrace : IsTrace Quiet
Quiet-IsTrace = record {
  still = λ c. (refl, refl);
  chain = λ c d k es fs h g. (gather-append committed es fs ∙ ap₂ ◌++◌ h.0 g.0, g.1 ∙ h.1);
}

abbrev Call : Type 0
Call = Int64 × NodeId × Option Block

-- The commitor was called so, and what it let out went out.
abbrev Fed : List Call → Core → Core → List Effect → Type 0
Fed calls c d es = run_calls c.commitor calls ≡ (commits es, d.commitor)

-- The commitor was called at most once.
abbrev One : Core → Core → List Effect → Type 0
One c d es = (calls : List Call) × (length calls ≤ 1) × Fed calls c d es

One-Quiet : (c d : Core) (es : List Effect) → Quiet c d es → One c d es
unfolding run_calls
One-Quiet c d es q = ([], omega arith, ap₂ (λ x y. (x, y)) (sym q.0) (sym q.1))

Quiet-first : Mixes Quiet One One
Quiet-first = record {
  stop = One-Quiet;
  go = λ c d k es fs q (calls, few, fed).
      (calls, few, rw (gather-append committed es fs, q.0, ← q.1) fed);
}

Quiet-last : Mixes One Quiet One
Quiet-last = record {
  stop = λ c d es h. h;
  go = λ c d k es fs (calls, few, fed) q.
      (calls, few, rw (gather-append committed es fs, q.0, q.1, append-nil (commits es)) fed);
}

One-commit_block : (e : Int64) (l : NodeId) (b : Option Block) → Respects One (commit_block e l b)
unfolding commit_block run_calls
One-commit_block e l b c = (
  (e, l, b) ∷ [],
  omega arith,
  rw (commits-commit_effects (commit c.commitor e l b).0, append-nil (commit c.commitor e l b).0)
      refl,
)

One-Pieces : (sv : Services) → Pieces sv Quiet One
unfolding store_block get_cbc_instance get_aba_instance invoke_stage_two invoke_aba_val
    abvance_next_epoch generate_block
One-Pieces sv = record {
  trace = Quiet-IsTrace;
  first = Quiet-first;
  last = Quiet-last;
  commits = One-commit_block;
  stores = λ b c. (ground arith, ground arith);
  cbc = λ e n t c. (refl, refl);
  aba = λ e r c. (refl, refl);
  goes_cbc = λ e n t k c. (refl, refl);
  goes_aba = λ e r k c. (refl, refl);
  counts_vote = λ v c. (refl, refl);
  counts_coin = λ m c. (refl, refl);
  elects = λ m c. (refl, refl);
  votes = λ e r c. (ground arith, ground arith);
  invokes = λ l e r i f c. (ground arith, ground arith);
  advances = λ e c. (ground arith, ground arith);
  puts_back = λ d c. (ground arith, ground arith);
}

silent_votes : (n : Identity) (s : Cbc) (t : Uint8) → commits (make_vote n s t) ≡ []
unfolding make_vote
silent_votes n s t = ground arith

commits-run_cbc :
    (n : Identity) (s : Cbc) (t : Uint8) (k : CbcTask) → commits (done_by (run_cbc n s t k)) ≡ []
unfolding process_ready process_final
commits-run_cbc n s t k =
    gather-run_cbc committed (λ e i u j. refl) silent_votes n s t k (λ r. ground arith)
      (λ m. ground arith)

Quiet-run_cbc_task :
    (e : Int64) (n : NodeId) (t : Uint8) (k : CbcTask) → Respects Quiet (run_cbc_task e n t k)
unfolding run_cbc_task
Quiet-run_cbc_task e n t k c = (
  rw (run_cbc_task-done_by e n t k c) (commits-run_cbc c.identity (cbc_or_new c e n t) t k),
  ground arith,
)

Quiet-run_aba_task : (e r : Int64) (k : AbaTask) → Respects Quiet (run_aba_task e r k)
unfolding run_aba_task run_aba process_aba_val process_aba_mux process_coin process_halt
Quiet-run_aba_task e r (AbaTask.val m) c = (ground arith, ground arith)
Quiet-run_aba_task e r (AbaTask.mux m) c = (ground arith, ground arith)
Quiet-run_aba_task e r (AbaTask.coin i coin l) c = (ground arith, ground arith)
Quiet-run_aba_task e r (AbaTask.halt m) c = (ground arith, ground arith)

Quiet-process_cbc_back : (b : CbcBack) → Respects Quiet (process_cbc_back b)
unfolding process_cbc_back
Quiet-process_cbc_back b c = (ground arith, ground arith)

Quiet-first_proposal : Respects Quiet first_proposal
unfolding first_proposal generate_block
Quiet-first_proposal c = (ground arith, ground arith)

still-One : (m : M (Unit {0})) → Respects Quiet m → Respects One m
still-One m q c = One-Quiet c (m c).1 (m c).2 (q c)

One-run_event : (sv : Services) (ev : Event) → Respects One (run_event sv ev)
unfolding run_event
One-run_event sv begin = still-One first_proposal Quiet-first_proposal
One-run_event sv (message m) = receive_message-Respects (One-Pieces sv) m
One-run_event sv (cbc_result b) = still-One (process_cbc_back b) (Quiet-process_cbc_back b)
One-run_event sv (aba_result b) = process_aba_back-Respects (One-Pieces sv) b
One-run_event sv (cbc_task e n t k) = still-One (run_cbc_task e n t k) (Quiet-run_cbc_task e n t k)
One-run_event sv (aba_task e r k) = still-One (run_aba_task e r k) (Quiet-run_aba_task e r k)

-- A run calls the commitor at most once for each event.
Reaches-Fed :
    (sv : Services) {c d : Core} {evs : List Event} {es : List Effect}
    → Reaches sv c d evs es
    → (calls : List Call) × (length calls ≤ length evs) × Fed calls c d es
Reaches-Fed sv start = ([], omega arith, unfold run_calls in refl)
Reaches-Fed sv {c} (later {d} {evs} {es} ev r) =
    let (xs, few, fed) = Reaches-Fed sv r in
    let (ys, one, more) = One-run_event sv ev d in
    (
      xs ++ ys,
      omega (arith, length-append xs ys),
      run_calls-append c.commitor xs ys
          ∙ rw (fed, more, gather-append committed es (run_event sv ev d).2) refl,
    )

-- Over any run of a new node of MVBA of fewer than 2 ^ 62 - 1 events, the blocks that go out are
-- committed for the epochs 0, 1, 2 and so on, none twice and none left out.
pub mvba_commits_consecutive :
    (sv : Services) (n : Identity) (h : History) (pool : Pool) {c : Core} {evs : List Event}
    {es : List Effect}
    → Reaches sv (new_core n h pool) c evs es
    → length evs < 2 ^ 62 - 1
    → map epoch_of_entry (commits es) ≡ count_up 0 (length (commits es))
unfolding new_core
mvba_commits_consecutive sv n h pool reach small =
    let (calls, few, fed) = Reaches-Fed sv reach in
    let done = (mvba_commits_in_order calls (omega (arith, length-given_blocks calls))).0 in
    rw fed at done
