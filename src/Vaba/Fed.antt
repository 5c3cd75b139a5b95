-- ===== src/Vaba/Fed.antt =====
-- core/vaba/consensus/core.go with commitor.go: how often the methods call the commitor.
use mathlib.Core.List.{append-nil}
use mathlib.Core.Path.{ap₂}
use bft_mvba.Methods.{
  core, gather-append, Mixes, Respects, Respects-if, lift, mixed-bind, mixed-next, return_nil,
  ◌>>=◌, ◌>>◌,
}
use bft_mvba.Base.{
  ℕ, ◌+◌, ◌≤◌, ◌==◌, ◌&&◌, inc, List, [], ◌∷◌, ◌++◌, length, length-append, Option, none, some,
  panic, if◌then◌else◌, Int64, ◌≡◌, refl, ◌∙◌, sym, arith, ap, not,
}
use bft_mvba.Committee.{NodeId, hight_threshold}
use bft_mvba.Crypto.{Digest}
use bft_mvba.Committor.{commit}
use bft_mvba.Committor.Runs.{run_commits, run_commits-append}
use bft_mvba.Vaba.Messages.{Block, ViewChange}
use bft_mvba.Vaba.Effects.{Effect}
use bft_mvba.Vaba.Commits.{commit_block}
use bft_mvba.Vaba.Core.{
  Services, Core, M, commit_call, commit_effects, try_block, output_found, output_block,
  set_committed, tell_halt, advance_next_epoch, ignore_error, finish_epoch, empty_block,
  give_up_epoch, put_back_own,
}
use bft_mvba.Vaba.Quiet.{committed_by, commits, Quiet, Quiet-put_back_own, Quiet-advance_next_epoch}

abbrev pub epoch_of_block : Block → Int64
epoch_of_block b = b.epoch

-- The commitor was called with these blocks, and what it let out went out.
abbrev pub Fed : List Block → Core → Core → List Effect → Type 0
Fed bs c d es = run_commits epoch_of_block c.commitor bs ≡ (commits es, d.commitor)

-- At most so many blocks were given to the commitor.
abbrev pub Few : ℕ → Core → Core → List Effect → Type 0
Few n c d es = (bs : List Block) × (length bs ≤ n) × Fed bs c d es

pub Few-more : (m n : ℕ) → m ≤ n → (c d : Core) (es : List Effect) → Few m c d es → Few n c d es
Few-more m n le c d es (bs, few, fed) = (bs, omega arith, fed)

pub Few-chain :
    (m n : ℕ) (c d k : Core) (es fs : List Effect)
    → Few m c d es
    → Few n d k fs
    → Few (m + n) c k (es ++ fs)
Few-chain m n c d k es fs (bs, few, fed) (cs, less, more) = (
  bs ++ cs,
  omega (arith, length-append bs cs),
  run_commits-append epoch_of_block c.commitor bs cs
      ∙ rw (fed, more, gather-append committed_by es fs) refl,
)

pub Few-Mixes : (m n : ℕ) → Mixes (Few m) (Few n) (Few (m + n))
Few-Mixes m n = record { stop = Few-more m (m + n) (omega arith); go = Few-chain m n }

pub none_given : {A : Type 0} (m : M A) → Respects Quiet m → (n : ℕ) → Respects (Few n) m
unfolding run_commits
none_given m q n c = ([], omega arith, ap₂ (λ x y. (x, y)) (sym (q c).0) (sym (q c).1))

pub nothing : (n : ℕ) → Respects (Few n) return_nil
nothing n = none_given return_nil (λ c. (refl, refl)) n

commits-commit_effects : (bs : List Block) → commits (commit_effects bs) ≡ bs
commits-commit_effects [] = refl
commits-commit_effects (b ∷ bs) = ap (◌∷◌ b) (commits-commit_effects bs)

pub Few-commit_call : (b : Option Block) → Respects (Few 1) (commit_call b)
unfolding commit_call run_commits commit_block
Few-commit_call none c = ([], omega arith, refl)
Few-commit_call (some b) c = (
  b ∷ [],
  omega arith,
  rw
      (
        commits-commit_effects (commit epoch_of_block c.commitor b).0,
        append-nil (commit epoch_of_block c.commitor b).0,
      )
      refl,
)

Few-output_found :
    (sv : Services) (e : Int64) (b : Option Block) → Respects (Few 1) (output_found sv e b)
Few-output_found sv e none = nothing 1
Few-output_found sv e (some b) =
    mixed-next (Few-Mixes 1 0) (commit_call (some (record b { epoch = e }))) _
      (Few-commit_call (some (record b { epoch = e })))
      (none_given {A = Unit {0}}
        (core >>= λ c. if not (b.proposer == c.name) then put_back_own sv e else return_nil)
        (λ c. let q = Quiet-put_back_own sv e c in (ground (arith, q), ground (arith, q))) 0)

Few-output_block : (sv : Services) (e : Int64) (d : Digest) → Respects (Few 1) (output_block sv e d)
unfolding output_block
Few-output_block sv e d =
    mixed-bind (Few-Mixes 0 1) (try_block sv d) (output_found sv e)
      (none_given (try_block sv d) (λ c. (refl, refl)) 0) (Few-output_found sv e)

Few-advance :
    (sv : Services) (e : Int64) (h : Option Digest)
    → Respects (Few 0) (ignore_error (advance_next_epoch sv e h))
Few-advance sv e h =
    none_given (ignore_error (advance_next_epoch sv e h)) (Quiet-advance_next_epoch sv e h) 0

Few-set_committed : (e : Int64) → Respects (Few 0) (set_committed e)
Few-set_committed e = none_given (set_committed e) (λ c. (refl, refl)) 0

pub Few-finish_epoch :
    (sv : Services) (e : Int64) (l : NodeId) (d : Option Digest)
    → Respects (Few 1) (finish_epoch sv e l d)
Few-finish_epoch sv e l none = none_given {A = Unit {0}} (lift panic) (λ c. (refl, refl)) 1
Few-finish_epoch sv e l (some d) =
    let next : M (Unit {0}) = ignore_error (advance_next_epoch sv (inc e) none) in
    mixed-next (Few-Mixes 1 0) (output_block sv e d) (set_committed e >> (tell_halt l d e >> next))
      (Few-output_block sv e d)
      (mixed-next (Few-Mixes 0 0) (set_committed e) (tell_halt l d e >> next) (Few-set_committed e)
        (mixed-next (Few-Mixes 0 0) (tell_halt l d e) next
          (none_given (tell_halt l d e) (λ c. (refl, refl)) 0) (Few-advance sv (inc e) none)))

pub Few-give_up_epoch : (sv : Services) (v : ViewChange) → Respects (Few 1) (give_up_epoch sv v)
Few-give_up_epoch sv v c =
    Respects-if (Few 1)
      (not (c.commit_flag v.epoch) && c.view_change_cnts v.epoch == hight_threshold c.committee)
      (set_committed v.epoch >> (give >> next)) return_nil
      (λ _.
        mixed-next (Few-Mixes 0 1) (set_committed v.epoch) (give >> next)
          (Few-set_committed v.epoch)
          (mixed-next (Few-Mixes 1 0) give next (Few-commit_call (some (empty_block v.epoch)))
            (Few-advance sv (inc v.epoch) v.block_hash)))
      (λ _. nothing 1) c
  where
    give : M (Unit {0})
    give = commit_call (some (empty_block v.epoch))

    next : M (Unit {0})
    next = ignore_error (advance_next_epoch sv (inc v.epoch) v.block_hash)
