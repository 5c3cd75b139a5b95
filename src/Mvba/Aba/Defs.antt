-- ===== src/Mvba/Aba/Defs.antt =====
-- core/mvba/consensus/aba.go. A method gives the instance after it and what it did. `ProcessABAMux`
-- takes its mutexes several times: each part of it between two of them is a function of its own.
use bft_mvba.Base.{
  ◌+◌, ◌%◌, ◌^◌, Bool, true, false, not, ◌&&◌, ◌||◌, slt, inc, put, List, [], ◌∷◌, ◌++◌,
  if◌then◌else◌, ◌==◌, Int64,
}
use bft_mvba.Committee.{NodeId, hight_threshold, low_threshold}
use bft_mvba.Methods.{Identity}
use bft_mvba.Mvba.Messages.{
  Uint8, flag_yes, flag_no, AbaVal, AbaMux, AbaHalt, Messgae, new_aba_val, new_aba_mux,
  new_coin_share, new_aba_halt,
}
use bft_mvba.Mvba.Effects.{Effect, aba_back, tell_all, AbaTask, aba_invoke, aba_halted}

pub record Aba : Type 0 where
  pub epoch : Int64
  pub ex_round : Int64
  pub val_yes_cnt : Int64 → Int64
  pub val_no_cnt : Int64 → Int64
  pub mux_flag : Int64 → Bool
  pub mux_fin_flag : Int64 → Bool
  pub yes_flag : Int64 → Bool
  pub no_flag : Int64 → Bool
  pub mux_yes_cnt : Int64 → Int64
  pub mux_no_cnt : Int64 → Int64
  pub halt : Bool

unfoldable pub new_aba : Int64 → Int64 → Aba
new_aba epoch ex_round = record {
  epoch = epoch;
  ex_round = ex_round;
  val_yes_cnt = λ _. 0;
  val_no_cnt = λ _. 0;
  mux_flag = λ _. false;
  mux_fin_flag = λ _. false;
  yes_flag = λ _. false;
  no_flag = λ _. false;
  mux_yes_cnt = λ _. 0;
  mux_no_cnt = λ _. 0;
  halt = false;
}

-- The counting of a value, and the count that the rest of the method looks at.
unfoldable pub count_val : Aba → AbaVal → Aba × Int64
count_val s m =
    if m.flag == flag_no
    then (
      record s { val_no_cnt = put s.val_no_cnt m.in_round (inc (s.val_no_cnt m.in_round)) },
      inc (s.val_no_cnt m.in_round),
    )
    else if m.flag == flag_yes
    then (
      record s { val_yes_cnt = put s.val_yes_cnt m.in_round (inc (s.val_yes_cnt m.in_round)) },
      inc (s.val_yes_cnt m.in_round),
    )
    else (s, 0)

-- Two thirds of the nodes have the value: the node says so, once for each round of the agreement.
unfoldable pub support : Identity → Aba → AbaVal → Aba × List Effect
unfolding new_aba_mux
support n s m = if s.mux_flag m.in_round then (s, []) else (
  record s { mux_flag = put s.mux_flag m.in_round true },
  tell_all n (
      Messgae.aba_mux
        (new_aba_mux n.sig_service n.name m.leader m.epoch m.round m.in_round m.flag)),
)

abbrev pub on_val : Identity → AbaVal → Aba × Int64 → Aba × List Effect
on_val n m (s, cnt) =
    if cnt == low_threshold n.committee
    then (
      s,
      aba_back (record {
        typ = aba_invoke;
        epoch = s.epoch;
        ex_round = s.ex_round;
        in_round = m.in_round;
        flag = m.flag;
        leader = m.leader;
      })
          ∷ [],
    )
    else if cnt == hight_threshold n.committee
    then support n s m
    else (s, [])

unfoldable pub process_aba_val : Identity → Aba → AbaVal → Aba × List Effect
unfolding count_val support
process_aba_val n s m = if s.halt then (s, []) else on_val n m (count_val s m)

unfoldable pub count_mux : Aba → AbaMux → Aba
count_mux s m =
    if m.flag == flag_no
    then record s { mux_no_cnt = put s.mux_no_cnt m.in_round (inc (s.mux_no_cnt m.in_round)) }
    else if m.flag == flag_yes
    then record s { mux_yes_cnt = put s.mux_yes_cnt m.in_round (inc (s.mux_yes_cnt m.in_round)) }
    else s

-- What a goroutine has read of the counters when it takes the last mutex.
pub record Seen : Type 0 where
  pub mux_yes : Int64
  pub mux_no : Int64
  pub val_yes : Int64
  pub val_no : Int64

abbrev pub see : Aba → Int64 → Seen
see s r = record {
  mux_yes = s.mux_yes_cnt r;
  mux_no = s.mux_no_cnt r;
  val_yes = s.val_yes_cnt r;
  val_no = s.val_no_cnt r;
}

-- `a >= b`
abbrev sge : Int64 → Int64 → Bool
sge a b = not (slt a b)

abbrev set_yes : Aba → Int64 → Aba
set_yes s r = record s {
  yes_flag = put s.yes_flag r true;
  mux_fin_flag = put s.mux_fin_flag r true;
}

abbrev set_no : Aba → Int64 → Aba
set_no s r = record s { no_flag = put s.no_flag r true; mux_fin_flag = put s.mux_fin_flag r true }

-- Both values have two thirds: each one that somebody supports.
abbrev set_both : Aba → Int64 → Seen → Aba × Bool
set_both s r v =
    let yes = slt 0 v.mux_yes in
    let no = slt 0 v.mux_no in
    let s' = if yes then set_yes s r else s in (if no then set_no s' r else s', yes || no)

unfoldable pub set_flags : Identity → Aba → Int64 → Seen → Aba × Bool
set_flags n s r v =
    let th = hight_threshold n.committee in
    if not (sge ((v.mux_yes + v.mux_no) % 2 ^ 64) th)
    then (s, false)
    else if sge v.val_yes th && sge v.val_no th
    then set_both s r v
    else if sge v.val_yes th && sge v.mux_yes th
    then (set_yes s r, true)
    else if sge v.val_no th && sge v.mux_no th
    then (set_no s r, true)
    else (s, false)

-- The node's share of the coin, where the flags have just been set.
abbrev pub share_coin : Identity → AbaMux → Aba × Bool → Aba × List Effect
share_coin n m (s, flag) = (
  s,
  if flag
      then tell_all n (
          Messgae.coin_share
            (new_coin_share n.sig_service n.name m.leader m.epoch m.round m.in_round))
      else [],
)

-- The part under the last mutex, and what follows it.
unfoldable pub settle_mux : Identity → Aba → AbaMux → Seen → Aba × List Effect
unfolding set_flags new_coin_share
settle_mux n s m v =
    if s.mux_fin_flag m.in_round then (s, []) else share_coin n m (set_flags n s m.in_round v)

unfoldable pub process_aba_mux : Identity → Aba → AbaMux → Aba × List Effect
unfolding count_mux settle_mux
process_aba_mux n s m =
    if s.halt
    then (s, [])
    else if s.mux_fin_flag m.in_round
    then (s, [])
    else (let s' = count_mux s m in settle_mux n s' m (see s' m.in_round))

abbrev next_val : Identity → Aba → Int64 → Uint8 → NodeId → List Effect
next_val n s in_round flag leader = tell_all n (
    Messgae.aba_val
      (new_aba_val n.sig_service n.name leader s.epoch s.ex_round (inc in_round) flag))

abbrev first_halt : Identity → Aba → Int64 → Uint8 → NodeId → List Effect
first_halt n s in_round flag leader =
    tell_all n
      (Messgae.aba_halt (new_aba_halt n.sig_service n.name leader s.epoch s.ex_round in_round flag))

-- The instance does not change.
unfoldable pub process_coin : Identity → Aba → Int64 → Uint8 → NodeId → List Effect
unfolding new_aba_val new_aba_halt
process_coin n s in_round coin leader =
    let yes = s.yes_flag in_round in
    let no = s.no_flag in_round in
    if yes && no || not yes && not no
    then next_val n s in_round coin leader
    else if yes && coin == flag_yes || no && coin == flag_no
    then first_halt n s in_round coin leader
    else if yes
    then next_val n s in_round flag_yes leader
    else next_val n s in_round flag_no leader

unfoldable pub process_halt : Identity → Aba → AbaHalt → Aba × List Effect
unfolding new_aba_halt
process_halt n s m = if s.halt then (s, []) else (
  record s { halt = true },
  first_halt n s m.in_round m.flag m.leader
      ++ aba_back (record {
        typ = aba_halted;
        epoch = m.epoch;
        ex_round = m.round;
        in_round = m.in_round;
        flag = m.flag;
        leader = m.leader;
      })
        ∷ [],
)

unfoldable pub run_aba : Identity → Aba → AbaTask → Aba × List Effect
unfolding process_aba_val process_aba_mux process_coin process_halt
run_aba n s (AbaTask.val m) = process_aba_val n s m
run_aba n s (AbaTask.mux m) = process_aba_mux n s m
run_aba n s (AbaTask.coin in_round coin leader) = (s, process_coin n s in_round coin leader)
run_aba n s (AbaTask.halt m) = process_halt n s m
