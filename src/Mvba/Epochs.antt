-- ===== src/Mvba/Epochs.antt =====
-- core/mvba/consensus/core.go: how the epoch of a node moves, and what it does not listen to.
use bft_mvba.Base.{true, List, [], ok, Int64, slt, ◌≡◌, refl, arith, ◌⊎◌, inl, slt_trans}
use bft_mvba.Methods.{IsTrace}
use bft_mvba.Mvba.Messages.{Messgae}
use bft_mvba.Mvba.Effects.{Effect}
use bft_mvba.Mvba.Core.{
  Services, Core, generate_block, handle_proposal, handle_commitment, handle_ready, handle_final,
  handle_elect_share, handle_vote, handle_aba_val, handle_aba_mux, handle_coin_share,
  handle_aba_halt, dispatch, receive, commit_block, store_block, get_cbc_instance, get_aba_instance,
  invoke_stage_two, invoke_aba_val, process_cbc_back, abvance_next_epoch, first_proposal,
  run_cbc_task, run_aba_task,
}
use bft_mvba.Mvba.Runs.{Event, Reaches}
use bft_mvba.Mvba.Pieces.{Mixes-alone, Pieces, Events, run-Respects}

-- The epoch is the same, or a later one.
abbrev pub NotBack : Core → Core → List Effect → Type 0
NotBack c d es = (d.epoch ≡ c.epoch) ⊎ (slt c.epoch d.epoch ≡ true)

NotBack-IsTrace : IsTrace NotBack
NotBack-IsTrace = record {
  still = λ c. inl refl;
  chain = λ c d k es fs h g. ground (arith, slt_trans c.epoch d.epoch k.epoch);
}

NotBack-Pieces : (sv : Services) → Pieces sv NotBack NotBack
unfolding commit_block store_block get_cbc_instance get_aba_instance invoke_stage_two invoke_aba_val
    abvance_next_epoch generate_block
NotBack-Pieces sv = record {
  trace = NotBack-IsTrace;
  first = Mixes-alone NotBack-IsTrace;
  last = Mixes-alone NotBack-IsTrace;
  commits = λ e l b c. inl refl;
  stores = λ b c. ground arith;
  cbc = λ e n t c. inl refl;
  aba = λ e r c. inl refl;
  goes_cbc = λ e n t k c. inl refl;
  goes_aba = λ e r k c. inl refl;
  counts_vote = λ v c. inl refl;
  counts_coin = λ m c. inl refl;
  elects = λ m c. inl refl;
  votes = λ e r c. ground arith;
  invokes = λ l e r i f c. ground arith;
  advances = λ e c. ground arith;
  puts_back = λ d c. ground arith;
}

NotBack-Events : (sv : Services) → Events sv NotBack
unfolding process_cbc_back first_proposal run_cbc_task run_aba_task generate_block
NotBack-Events sv = record {
  pieces = NotBack-Pieces sv;
  begins = λ c. ground arith;
  finals = λ b c. ground arith;
  runs_cbc = λ e n t k c. ground arith;
  runs_aba = λ e r k c. ground arith;
}

-- Over any run of a node of MVBA its epoch stays or grows, as a signed number.
pub mvba_epoch-NotBack :
    (sv : Services) (c : Core) {d : Core} {evs : List Event} {es : List Effect}
    → Reaches sv c d evs es
    → NotBack c d es
mvba_epoch-NotBack sv c reach = run-Respects (NotBack-Events sv) reach

abbrev pub epoch_of : Messgae → Int64
epoch_of (Messgae.proposal m) = m.epoch
epoch_of (Messgae.commitment m) = m.epoch
epoch_of (Messgae.ready m) = m.epoch
epoch_of (Messgae.final m) = m.epoch
epoch_of (Messgae.elect_share m) = m.epoch
epoch_of (Messgae.vote m) = m.epoch
epoch_of (Messgae.aba_val m) = m.epoch
epoch_of (Messgae.aba_mux m) = m.epoch
epoch_of (Messgae.coin_share m) = m.epoch
epoch_of (Messgae.aba_halt m) = m.epoch

dispatch_stale :
    (sv : Services) (m : Messgae) (c : Core)
    → slt (epoch_of m) c.epoch ≡ true
    → dispatch sv m c ≡ (ok tt, c, [])
unfolding dispatch handle_proposal handle_commitment handle_ready handle_final handle_elect_share
    handle_vote handle_aba_val handle_aba_mux handle_coin_share handle_aba_halt
dispatch_stale sv (Messgae.proposal m) c old = rw old refl
dispatch_stale sv (Messgae.commitment m) c old = rw old refl
dispatch_stale sv (Messgae.ready m) c old = rw old refl
dispatch_stale sv (Messgae.final m) c old = rw old refl
dispatch_stale sv (Messgae.elect_share m) c old = rw old refl
dispatch_stale sv (Messgae.vote m) c old = rw old refl
dispatch_stale sv (Messgae.aba_val m) c old = rw old refl
dispatch_stale sv (Messgae.aba_mux m) c old = rw old refl
dispatch_stale sv (Messgae.coin_share m) c old = rw old refl
dispatch_stale sv (Messgae.aba_halt m) c old = rw old refl

-- A message of MVBA of an epoch that the node has left, of any of the ten kinds, changes nothing
-- of its state and sets nothing off.
pub mvba_receive_stale :
    (sv : Services) (m : Messgae) (c : Core)
    → slt (epoch_of m) c.epoch ≡ true
    → ((receive sv m c).1 ≡ c) × ((receive sv m c).2 ≡ [])
unfolding receive
mvba_receive_stale sv m c old =
    let same = dispatch_stale sv m c old in (ground (arith, same), ground (arith, same))
