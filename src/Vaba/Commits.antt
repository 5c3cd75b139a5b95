-- ===== src/Vaba/Commits.antt =====
-- core/vaba/consensus/commitor.go: the loop of the commitor of smvba, on the blocks of VABA. To read
-- the epoch of a nil block panics.
use bft_mvba.Base.{List, Option, none, some, Outcome, ok, panic}
use bft_mvba.Committor.{Committor, commit}
use bft_mvba.Vaba.Messages.{Block}

unfoldable pub commit_block :
    Committor Block → Option Block → Outcome (List Block × Committor Block)
unfolding commit
commit_block c none = panic
commit_block c (some b) = ok (commit (λ b. b.epoch) c b)
