-- ===== src/Mvba/Aba/Once.antt =====
-- core/mvba/consensus/aba.go: what an instance sends at most once.
use bft_mvba.Base.{
  ℕ, ◌+◌, Bool, if◌then◌else◌, ◌==◌, List, [], ◌∷◌, length, length-append, Int64, ◌≡◌, arith,
}
use bft_mvba.Methods.{Identity, IsTrace, Respects, Reaches-Respects, gather, gather-append}
use bft_mvba.Mvba.Messages.{
  AbaMux, CoinShare, Messgae, new_aba_val, new_aba_mux, new_coin_share, new_aba_halt,
}
use bft_mvba.Mvba.Effects.{Effect, send, AbaBack, aba_back, aba_halted}
use bft_mvba.Mvba.Aba.Defs.{
  Aba, new_aba, count_val, support, process_aba_val, count_mux, set_flags, settle_mux, process_coin,
  process_halt,
}
use bft_mvba.Mvba.Aba.Runs.{Step, val, count, settle, coin, halt, enter_mux, run_step, Reaches}

abbrev in_mux : Int64 → Messgae → List AbaMux
in_mux i (Messgae.aba_mux m) = if m.in_round == i then m ∷ [] else []
in_mux i (Messgae.aba_val _) = []
in_mux i _ = []

abbrev mux_sent : Int64 → Effect → List AbaMux
mux_sent i (send _ _ m) = in_mux i m
mux_sent i _ = []

-- The muxes for a round of the agreement that were sent to everybody.
abbrev pub muxes : Int64 → List Effect → List AbaMux
muxes i es = gather (mux_sent i) es

abbrev in_share : Int64 → Messgae → List CoinShare
in_share i (Messgae.coin_share m) = if m.in_round == i then m ∷ [] else []
in_share i (Messgae.aba_val _) = []
in_share i _ = []

abbrev share_sent : Int64 → Effect → List CoinShare
share_sent i (send _ _ m) = in_share i m
share_sent i _ = []

abbrev pub shares : Int64 → List Effect → List CoinShare
shares i es = gather (share_sent i) es

abbrev halted_in : Effect → List AbaBack
halted_in (aba_back b) = if b.typ == aba_halted then b ∷ [] else []
halted_in _ = []

-- The results that end the instance, for the core.
abbrev pub ends : List Effect → List AbaBack
ends es = gather halted_in es

abbrev one : Bool → ℕ
one b = if b then 1 else 0

-- What is sent goes with the flags that are set.
record Flagged (i : Int64) (c d : Aba) (es : List Effect) : Type 0 where
  muxed : length (muxes i es) + one (c.mux_flag i) ≡ one (d.mux_flag i)
  shared : length (shares i es) + one (c.mux_fin_flag i) ≡ one (d.mux_fin_flag i)
  ended : length (ends es) + one c.halt ≡ one d.halt

Flagged-IsTrace : (i : Int64) → IsTrace (Flagged i)
Flagged-IsTrace i = record {
  still = λ c. record { muxed = omega arith; shared = omega arith; ended = omega arith };
  chain = λ c d k es fs h g. record {
    muxed =
        rw (gather-append (mux_sent i) es fs)
          (omega (arith, length-append (muxes i es) (muxes i fs), h.muxed, g.muxed));
    shared =
        rw (gather-append (share_sent i) es fs)
          (omega (arith, length-append (shares i es) (shares i fs), h.shared, g.shared));
    ended =
        rw (gather-append halted_in es fs)
          (omega (arith, length-append (ends es) (ends fs), h.ended, g.ended));
  };
}

Flagged-run_step : (n : Identity) (i : Int64) (k : Step) → Respects (Flagged i) (run_step n k)
unfolding run_step process_aba_val count_val support enter_mux count_mux settle_mux set_flags
    process_coin process_halt new_aba_val new_aba_mux new_coin_share new_aba_halt
Flagged-run_step n i (val m) s = record {
  muxed = ground arith;
  shared = ground arith;
  ended = ground arith;
}
Flagged-run_step n i (count m) s = record {
  muxed = ground arith;
  shared = ground arith;
  ended = ground arith;
}
Flagged-run_step n i (settle m v) s = record {
  muxed = ground arith;
  shared = ground arith;
  ended = ground arith;
}
Flagged-run_step n i (coin j c l) s = record {
  muxed = ground arith;
  shared = ground arith;
  ended = ground arith;
}
Flagged-run_step n i (halt m) s = record {
  muxed = ground arith;
  shared = ground arith;
  ended = ground arith;
}

-- Over any run of the steps of an agreement from new, cut at the mutexes and in any order, the
-- node sends for each round of the agreement one mux if it set the round's flag for it and none
-- otherwise, and one share of the coin if it finished the round and none otherwise; and the core
-- is told once that the agreement has halted if it has, and never otherwise.
pub aba_sends_once :
    (n : Identity) (epoch round i : Int64) {s : Aba} {ks : List Step} {es : List Effect}
    → Reaches n (new_aba epoch round) s ks es
    → (length (muxes i es) ≡ (if s.mux_flag i then 1 else 0))
      × (length (shares i es) ≡ (if s.mux_fin_flag i then 1 else 0))
      × (length (ends es) ≡ (if s.halt then 1 else 0))
unfolding new_aba
aba_sends_once n epoch round i r =
    let f = Reaches-Respects (Flagged-IsTrace i) (Flagged-run_step n i) r in
    (omega (arith, f.muxed), omega (arith, f.shared), omega (arith, f.ended))
