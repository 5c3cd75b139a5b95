-- ===== src/Mvba/Cbc/Alone.antt =====
-- core/mvba/consensus/cbc.go: a goroutine that no other one comes in between does in its steps what
-- it does as a whole.
use bft_mvba.Methods.{Identity, run_all}
use bft_mvba.Base.{List, [], ◌∷◌, ok, ◌≡◌, arith}
use bft_mvba.Threads.{Running, Step, enter, go_on, run_step}
use bft_mvba.Mvba.Messages.{Uint8}
use bft_mvba.Mvba.Effects.{Effect, CbcTask}
use bft_mvba.Mvba.Cbc.Defs.{
  Cbc, run_cbc, process_proposal, process_commitment, process_ready, process_final,
}
use bft_mvba.Mvba.Cbc.Steps.{Point, look, advance}

-- A goroutine from its start to its end, with nothing in between.
abbrev pub alone : CbcTask → List (Step CbcTask)
alone k = go_on 0 ∷ go_on 0 ∷ enter k ∷ []

abbrev pub no_others : Cbc → Running Cbc Point
no_others s = record { shared = s; points = [] }

-- Where a task of a broadcast that runs as a whole does not panic, the steps of its goroutine, with no
-- other one in between, end with the same broadcast and the same effects in the same order, and leave
-- no goroutine behind.
pub alone-run_cbc :
    (n : Identity) (tag : Uint8) (s u : Cbc) (k : CbcTask) (es : List Effect)
    → run_cbc n s tag k ≡ ok (u, es)
    → run_all (run_step (look n) (advance n tag)) (no_others s) (alone k) ≡ (no_others u, es)
unfolding run_all run_step look advance run_cbc process_proposal process_commitment process_ready
    process_final
alone-run_cbc n tag s u (CbcTask.proposal p) es e = ground arith
alone-run_cbc n tag s u (CbcTask.commitment m) es e = ground arith
alone-run_cbc n tag s u (CbcTask.ready r) es e = ground arith
alone-run_cbc n tag s u (CbcTask.final f) es e = ground arith
