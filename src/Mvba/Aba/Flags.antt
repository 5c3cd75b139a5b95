-- ===== src/Mvba/Aba/Flags.antt =====
-- core/mvba/consensus/aba.go: what the flags of a round of the agreement say of the muxes that came.
use bft_mvba.Base.{
  ◌+◌, ◌^◌, ◌≤◌, ◌<◌, Bool, true, false, ◌&&◌, ◌||◌, if◌then◌else◌, ◌==◌, List, [], ◌∷◌, length,
  Outcome, ok, Int64, ◌≡◌, refl, arith, inc, slt, ◌-◌,
}
use bft_mvba.Committee.{NodeId, hight_threshold}
use bft_mvba.Methods
use bft_mvba.Methods.{Identity, Method, start, later}
use bft_mvba.Mvba.Messages.{Uint8, flag_yes, flag_no, AbaMux}
use bft_mvba.Mvba.Effects.{Effect, AbaTask}
use bft_mvba.Mvba.Aba.Defs.{
  Aba, new_aba, count_val, support, process_aba_val, count_mux, set_flags, settle_mux,
  process_aba_mux, process_halt, run_aba, see,
}

abbrev always : Aba × List Effect → Outcome (Unit {0}) × Aba × List Effect
always (s, es) = (ok tt, s, es)

-- A task as a method of the instance.
unfoldable pub run_task : Identity → AbaTask → Method Aba Effect (Unit {0})
unfolding run_aba
run_task n k s = always (run_aba n s k)

-- An instance after some whole tasks.
abbrev pub Reaches : Identity → Aba → Aba → List AbaTask → List Effect → Type 0
Reaches n = Methods.Reaches (run_task n)

-- The authors of the muxes with the flag, for the round of the agreement.
abbrev pub supporters : Uint8 → Int64 → List AbaTask → List NodeId
supporters f i [] = []
supporters f i (AbaTask.mux m ∷ ks) =
    if m.in_round == i && m.flag == f then m.author ∷ supporters f i ks else supporters f i ks
supporters f i (AbaTask.val _ ∷ ks) = supporters f i ks
supporters f i (AbaTask.coin _ _ _ ∷ ks) = supporters f i ks
supporters f i (AbaTask.halt _ ∷ ks) = supporters f i ks

abbrev pub only_yes : Aba → Int64 → Bool
only_yes s i = s.yes_flag i && (if s.no_flag i then false else true)

abbrev pub only_no : Aba → Int64 → Bool
only_no s i = s.no_flag i && (if s.yes_flag i then false else true)

-- The counts are those of the muxes that came at most, and a single flag has a quorum behind it.
pub record Inv (n : Identity) (i : Int64) (s : Aba) (ks : List AbaTask) : Type 0 where
  yes_few : s.mux_yes_cnt i ≤ length (supporters flag_yes i ks)
  no_few : s.mux_no_cnt i ≤ length (supporters flag_no i ks)
  few : s.mux_yes_cnt i + s.mux_no_cnt i ≤ length ks
  settled : (s.yes_flag i || s.no_flag i) ≡ s.mux_fin_flag i
  pub yes_quorum :
      only_yes s i ≡ true → hight_threshold n.committee ≤ length (supporters flag_yes i ks)
  pub no_quorum :
      only_no s i ≡ true → hight_threshold n.committee ≤ length (supporters flag_no i ks)

val-Inv :
    (n : Identity) (i : Int64) (s : Aba) (ks : List AbaTask) (m : _)
    → Inv n i s ks
    → Inv n i (process_aba_val n s m).0 (AbaTask.val m ∷ ks)
unfolding process_aba_val count_val support
val-Inv n i s ks m v = record {
  yes_few = ground (arith, v.yes_few);
  no_few = ground (arith, v.no_few);
  few = ground (arith, v.few);
  settled = ground (arith, v.settled);
  yes_quorum = λ h. ground (arith, v.yes_quorum);
  no_quorum = λ h. ground (arith, v.no_quorum);
}

halt-Inv :
    (n : Identity) (i : Int64) (s : Aba) (ks : List AbaTask) (m : _)
    → Inv n i s ks
    → Inv n i (process_halt n s m).0 (AbaTask.halt m ∷ ks)
unfolding process_halt
halt-Inv n i s ks m v = record {
  yes_few = ground (arith, v.yes_few);
  no_few = ground (arith, v.no_few);
  few = ground (arith, v.few);
  settled = ground (arith, v.settled);
  yes_quorum = λ h. ground (arith, v.yes_quorum);
  no_quorum = λ h. ground (arith, v.no_quorum);
}

count-Inv :
    (n : Identity) (i : Int64) (s : Aba) (ks : List AbaTask) (m : AbaMux)
    → length ks < 2 ^ 61
    → Inv n i s ks
    → Inv n i (count_mux s m) (AbaTask.mux m ∷ ks)
unfolding count_mux inc
count-Inv n i s ks m small v = record {
  yes_few = ground (arith, v.yes_few, v.few);
  no_few = ground (arith, v.no_few, v.few);
  few = ground (arith, v.few);
  settled = ground (arith, v.settled);
  yes_quorum = λ h. ground (arith, v.yes_quorum);
  no_quorum = λ h. ground (arith, v.no_quorum);
}

settle-Inv :
    (n : Identity) (i : Int64) (s : Aba) (ks : List AbaTask) (m : AbaMux)
    → length ks < 2 ^ 61
    → hight_threshold n.committee < 2 ^ 61
    → Inv n i s ks
    → Inv n i (settle_mux n s m (see s m.in_round)).0 ks
unfolding settle_mux set_flags slt
settle-Inv n i s ks m small th v = record {
  yes_few = ground (arith, v.yes_few);
  no_few = ground (arith, v.no_few);
  few = ground (arith, v.few);
  settled = ground (arith, v.settled);
  yes_quorum = λ h. ground (arith, v.yes_quorum, v.settled, v.yes_few, v.few);
  no_quorum = λ h. ground (arith, v.no_quorum, v.settled, v.no_few, v.few);
}

-- A mux that the instance no longer takes.
drop-Inv :
    (n : Identity) (i : Int64) (s : Aba) (ks : List AbaTask) (m : AbaMux)
    → Inv n i s ks
    → Inv n i s (AbaTask.mux m ∷ ks)
drop-Inv n i s ks m v = record {
  yes_few = ground (arith, v.yes_few);
  no_few = ground (arith, v.no_few);
  few = ground (arith, v.few);
  settled = v.settled;
  yes_quorum = λ h. ground (arith, v.yes_quorum);
  no_quorum = λ h. ground (arith, v.no_quorum);
}

either-Inv :
    (n : Identity) (i : Int64) (ks : List AbaTask) (b : Bool) (x y : Aba × List Effect)
    → Inv n i x.0 ks
    → Inv n i y.0 ks
    → Inv n i (if b then x else y).0 ks
either-Inv n i ks true x y h g = h
either-Inv n i ks false x y h g = g

mux-Inv :
    (n : Identity) (i : Int64) (s : Aba) (ks : List AbaTask) (m : AbaMux)
    → length ks < 2 ^ 61 - 1
    → hight_threshold n.committee < 2 ^ 61
    → Inv n i s ks
    → Inv n i (process_aba_mux n s m).0 (AbaTask.mux m ∷ ks)
unfolding process_aba_mux
mux-Inv n i s ks m small th v =
    either-Inv n i (AbaTask.mux m ∷ ks) s.halt (s, []) _ (drop-Inv n i s ks m v)
      (either-Inv n i (AbaTask.mux m ∷ ks) (s.mux_fin_flag m.in_round) (s, [])
        (settle_mux n (count_mux s m) m (see (count_mux s m) m.in_round)) (drop-Inv n i s ks m v)
        (settle-Inv n i (count_mux s m) (AbaTask.mux m ∷ ks) m (omega arith) th
          (count-Inv n i s ks m (omega arith) v)))

task-Inv :
    (n : Identity) (i : Int64) (s : Aba) (ks : List AbaTask) (k : AbaTask)
    → length ks < 2 ^ 61 - 1
    → hight_threshold n.committee < 2 ^ 61
    → Inv n i s ks
    → Inv n i (run_task n k s).1 (k ∷ ks)
unfolding run_task run_aba
task-Inv n i s ks (AbaTask.val m) small th v = val-Inv n i s ks m v
task-Inv n i s ks (AbaTask.mux m) small th v = mux-Inv n i s ks m small th v
task-Inv n i s ks (AbaTask.coin j c l) small th v = record {
  yes_few = v.yes_few;
  no_few = v.no_few;
  few = omega (arith, v.few);
  settled = v.settled;
  yes_quorum = v.yes_quorum;
  no_quorum = v.no_quorum;
}
task-Inv n i s ks (AbaTask.halt m) small th v = halt-Inv n i s ks m v

pub Reaches-Inv :
    (n : Identity) (epoch round i : Int64) {s : Aba} {ks : List AbaTask} {es : List Effect}
    → hight_threshold n.committee < 2 ^ 61
    → Reaches n (new_aba epoch round) s ks es
    → length ks < 2 ^ 61
    → Inv n i s ks
Reaches-Inv n epoch round i th start small =
    unfold new_aba in
    record {
      yes_few = omega arith;
      no_few = omega arith;
      few = omega arith;
      settled = refl;
      yes_quorum = λ h. cc;
      no_quorum = λ h. cc;
    }
Reaches-Inv n epoch round i th (later {d} {evs} k r) small =
    task-Inv n i d evs k (omega arith) th (Reaches-Inv n epoch round i th r (omega arith))
