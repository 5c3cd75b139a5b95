-- ===== src/Smvba/Spb/Alone.antt =====
-- core/smvba/consensus/spb.go: a goroutine that no other one comes in between does in its steps what
-- it does as a whole.
use bft_mvba.Base.{List, [], ◌∷◌}
use bft_mvba.Threads.{Running, Step, enter, go_on}
use bft_mvba.Smvba.Spb.Defs.{Spb}
use bft_mvba.Smvba.Spb.Runs.{Task}
use bft_mvba.Smvba.Spb.Steps.{Point}

-- A goroutine from its start to its end, with nothing in between.
abbrev pub alone : Task → List (Step Task)
alone k = go_on 0 ∷ go_on 0 ∷ go_on 0 ∷ enter k ∷ []

abbrev pub no_others : Spb → Running Spb Point
no_others s = record { shared = s; points = [] }
