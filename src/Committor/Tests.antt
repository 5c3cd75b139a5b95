-- ===== src/Committor/Tests.antt =====
-- core/smvba/consensus/commitor.go on blocks that come out of order.
use bft_mvba.Base.{
  ℕ, ◌≡◌, ◌≤◌, ◌<◌, ◌^◌, refl, List, [], ◌∷◌, length, map, has, true, arith, Int64, slt, inc,
  lookup, insert, remove, none,
}
use bft_mvba.Committor.Defs.{new_committor, commit, drain}
use bft_mvba.Committor.Order.{count_up}
use bft_mvba.Committor.Runs.{run_commits, commits_in_order, commit_loop_ends}

-- Blocks that are their epoch.
abbrev itself : Int64 → Int64
itself e = e

abbrev given : List Int64
given = 1 ∷ 0 ∷ 0 ∷ 3 ∷ 2 ∷ []

commits_in_order_example :
    (map itself (run_commits itself new_committor given).0
      ≡ count_up 0 (length (run_commits itself new_committor given).0))
    × ((run_commits itself new_committor given).1.index
        ≡ length (run_commits itself new_committor given).0)
    × ((n : ℕ)
        → n ≤ 2 ^ 62
        → ((e : ℕ) → e < n → has (map itself given) e ≡ true)
        → n ≤ length (run_commits itself new_committor given).0)
commits_in_order_example = commits_in_order itself given (omega arith)

all_out : (run_commits itself new_committor given).0 ≡ 0 ∷ 1 ∷ 2 ∷ 3 ∷ []
unfolding run_commits commit drain slt inc lookup insert remove
all_out = refl

commit_loop_ends_example :
    lookup
      (run_commits itself new_committor given).1.index
      (run_commits itself new_committor given).1.blocks
    ≡ none
commit_loop_ends_example = commit_loop_ends itself given (omega arith)
