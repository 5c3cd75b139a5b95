-- ===== src/Mvba/CommitRuns.antt =====
-- What core/mvba/consensus/commitor.go promises over whole runs.
use mathlib.Core.List.{append_assoc}
use bft_mvba.Base.{
  ℕ, ◌-◌, ◌^◌, ◌<◌, ◌≤◌, ◌≡◌, refl, ◌∙◌, ap, List, [], ◌∷◌, ◌++◌, length, map, has, Option, none,
  some, Int64, arith, true,
}
use bft_mvba.Committee.{NodeId}
use bft_mvba.Committor.{commit as commit_entry}
use bft_mvba.Committor.Order.{count_up}
use bft_mvba.Committor.Runs.{run_commits, commits_in_order}
use bft_mvba.Mvba.Commits.{Commitor, epoch_of_entry, new_commitor, commit, run_calls, given_blocks}

module _ {B : Type 0} where
  commit-nil :
      (c : Commitor B) (e : Int64) (l : NodeId)
      → ((commit c e l none).0 ≡ []) × ((commit c e l none).1.commit_blocks ≡ c.commit_blocks)
  unfolding commit
  commit-nil c e l = (ground arith, ground arith)

  commit-commit_entry :
      (c : Commitor B) (e : Int64) (l : NodeId) (b : B)
      → ((commit c e l (some b)).0 ≡ (commit_entry epoch_of_entry c.commit_blocks (e, b)).0)
        × ((commit c e l (some b)).1.commit_blocks
            ≡ (commit_entry epoch_of_entry c.commit_blocks (e, b)).1)
  unfolding commit commit_entry
  commit-commit_entry c e l b = (ground arith, ground arith)

  pub run_calls-append :
      (c : Commitor B) (xs ys : List (Int64 × NodeId × Option B))
      → run_calls c (xs ++ ys) ≡ (
        (run_calls c xs).0 ++ (run_calls (run_calls c xs).1 ys).0,
        (run_calls (run_calls c xs).1 ys).1,
      )
  unfolding run_calls
  run_calls-append c [] ys = refl
  run_calls-append c ((e, l, b) ∷ xs) ys =
      let (out, k) = commit c e l b in
      rw
        (
          run_calls-append k xs ys,
          append_assoc out (run_calls k xs).0 (run_calls (run_calls k xs).1 ys).0,
        )
        refl

  pub length-given_blocks :
      (calls : List (Int64 × NodeId × Option B)) → length (given_blocks calls) ≤ length calls
  length-given_blocks [] = omega arith
  length-given_blocks ((e, l, none) ∷ calls) = omega (arith, length-given_blocks calls)
  length-given_blocks ((e, l, some b) ∷ calls) = omega (arith, length-given_blocks calls)

  run_calls-run_commits :
      (c : Commitor B) (calls : List (Int64 × NodeId × Option B))
      → (run_calls c calls).0 ≡ (run_commits epoch_of_entry c.commit_blocks (given_blocks calls)).0
  unfolding run_calls run_commits
  run_calls-run_commits c [] = refl
  run_calls-run_commits c ((e, l, none) ∷ calls) =
      let nil = commit-nil c e l in
      rw (nil.0) (
        run_calls-run_commits (commit c e l none).1 calls
        ∙ ap (λ k. (run_commits epoch_of_entry k (given_blocks calls)).0) nil.1)
  run_calls-run_commits c ((e, l, some b) ∷ calls) =
      let one = commit-commit_entry c e l b in
      rw (one.0) (
        ap
          (λ (rest : List (Int64 × B)).
            (commit_entry epoch_of_entry c.commit_blocks (e, b)).0 ++ rest)
          (run_calls-run_commits (commit c e l (some b)).1 calls
            ∙ ap (λ k. (run_commits epoch_of_entry k (given_blocks calls)).0) one.1))

  -- From a new commitor of MVBA, over calls that bring fewer than 2 ^ 62 - 1 blocks, what goes
  -- out are blocks given for the epochs 0, 1, 2 and so on, none twice and none left out; and once
  -- a block has been given for every epoch below `n`, in any order, all of those are out.
  pub mvba_commits_in_order :
      (calls : List (Int64 × NodeId × Option B))
      → length (given_blocks calls) < 2 ^ 62 - 1
      → (map epoch_of_entry (run_calls new_commitor calls).0
          ≡ count_up 0 (length (run_calls new_commitor calls).0))
        × ((n : ℕ)
            → n ≤ 2 ^ 62
            → ((e : ℕ) → e < n → has (map epoch_of_entry (given_blocks calls)) e ≡ true)
            → n ≤ length (run_calls new_commitor calls).0)
  mvba_commits_in_order calls small =
      let all = commits_in_order epoch_of_entry (given_blocks calls) small in
      rw (run_calls-run_commits new_commitor calls) (all.0, all.2)
