-- ===== src/Mvba/Repeats.antt =====
-- core/mvba/consensus/core.go with aba.go: a value that a node sends twice.
use bft_mvba.Base.{false, Int64, inc, ◌≡◌, arith}
use bft_mvba.Committee.{NodeId}
use bft_mvba.Mvba.Messages.{Uint8, Messgae, new_aba_val}
use bft_mvba.Mvba.Effects.{tell_all, AbaTask, AbaBack, aba_invoke}
use bft_mvba.Mvba.Aba.{run_aba, process_coin}
use bft_mvba.Mvba.Core.{
  Services, Core, aba_or_new, run_aba_task, process_aba_back, invoke_aba_val, is_invoke_aba,
}

-- The support of f + 1 nodes for a value.
abbrev pub support_back : Int64 → Int64 → Int64 → Uint8 → NodeId → AbaBack
support_back e r i f l = record {
  typ = aba_invoke;
  epoch = e;
  ex_round = r;
  in_round = i;
  flag = f;
  leader = l;
}

-- A node whose agreement, filed under its epoch and round, has both flags of a round of it or
-- neither goes to the next round with the coin, and does not note that it sent its value for that
-- round: if it had not been asked for that value before, then when the same value has the support
-- of f + 1 nodes it sends the same message to everybody and to itself once more.
pub value_sent_twice :
    (sv : Services) (c : Core) (e r i : Int64) (coin : Uint8) (l : NodeId)
    → (aba_or_new c e r).epoch ≡ e
    → (aba_or_new c e r).ex_round ≡ r
    → (aba_or_new c e r).yes_flag i ≡ (aba_or_new c e r).no_flag i
    → c.aba_invoke_flag e r (inc i) coin ≡ false
    → ((run_aba_task e r (AbaTask.coin i coin l) c).2
        ≡ tell_all c.identity
            (Messgae.aba_val (new_aba_val c.sig_service c.name l e r (inc i) coin)))
      × ((process_aba_back sv
            (support_back e r (inc i) coin l)
            (run_aba_task e r (AbaTask.coin i coin l) c).1).2
          ≡ tell_all c.identity
              (Messgae.aba_val (new_aba_val c.sig_service c.name l e r (inc i) coin)))
unfolding run_aba_task run_aba process_coin process_aba_back invoke_aba_val is_invoke_aba
value_sent_twice sv c e r i coin l same_e same_r both new =
    (ground (arith, same_e, same_r, both), ground (arith, same_e, same_r, both, new))
