-- ===== src/Mvba/Aba/Runs.antt =====
-- core/mvba/consensus/aba.go as a transition system: the tasks that the core starts on one instance,
-- cut where `ProcessABAMux` lets go of its mutexes, in any order. What a goroutine has read before it
-- takes the last mutex is any set of counts.
use bft_mvba.Base.{false, List, [], Outcome, ok, if◌then◌else◌, Int64, ◌≡◌, arith}
use bft_mvba.Committee.{NodeId}
use bft_mvba.Methods
use bft_mvba.Methods.{Identity, Method}
use bft_mvba.Mvba.Messages.{Uint8, AbaVal, AbaMux, AbaHalt}
use bft_mvba.Mvba.Effects.{Effect}
use bft_mvba.Mvba.Aba.Defs.{
  Aba, Seen, process_aba_val, process_aba_mux, count_mux, settle_mux, process_coin, process_halt,
  see,
}

pub data Step : Type 0 where
  val : AbaVal → Step
  count : AbaMux → Step
  settle : AbaMux → Seen → Step
  coin : (in_round : Int64) → Uint8 → NodeId → Step
  halt : AbaHalt → Step

-- A mux that comes when the instance still takes it is counted.
unfoldable pub enter_mux : Aba → AbaMux → Aba
unfolding count_mux
enter_mux s m = if s.halt then s else if s.mux_fin_flag m.in_round then s else count_mux s m

abbrev always : Aba × List Effect → Outcome (Unit {0}) × Aba × List Effect
always (s, es) = (ok tt, s, es)

unfoldable pub run_step : Identity → Step → Method Aba Effect (Unit {0})
unfolding process_aba_val enter_mux settle_mux process_coin process_halt
run_step n (val m) = λ s. always (process_aba_val n s m)
run_step n (count m) = λ s. always (enter_mux s m, [])
run_step n (settle m v) = λ s. always (settle_mux n s m v)
run_step n (coin i c l) = λ s. always (s, process_coin n s i c l)
run_step n (halt m) = λ s. always (process_halt n s m)

-- An instance after some steps.
abbrev pub Reaches : Identity → Aba → Aba → List Step → List Effect → Type 0
Reaches n = Methods.Reaches (run_step n)

-- Uncut, `ProcessABAMux` is the two steps in a row.
pub process_aba_mux-steps :
    (n : Identity) (s : Aba) (m : AbaMux)
    → s.halt ≡ false
    → process_aba_mux n s m ≡ settle_mux n (enter_mux s m) m (see (enter_mux s m) m.in_round)
unfolding process_aba_mux enter_mux settle_mux
process_aba_mux-steps n s m going = ground arith
