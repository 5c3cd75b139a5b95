-- ===== src/Mvba/Halts.antt =====
-- core/mvba/consensus/core.go with aba.go: what one halt message sets off, through the goroutine of the
-- agreement and back into the loop.
use bft_mvba.Base.{
  get_elem-outside, inl, inr, ◌⊎◌, ◌-◌, ◌^◌, ◌≤◌, ◌<◌, Bool, true, false, List, [], ◌∷◌, length,
  Option, none, some, Outcome, ok, err, panic, Error, Int64, slt, inc, ◌≡◌, ◌≢◌, refl, arith,
}
use bft_mvba.Committee.{NodeId, no_node}
use bft_mvba.Crypto.{Bytes, Digest}
use bft_mvba.Methods.{gather}
use bft_mvba.Mvba.Messages.{flag_yes, flag_no, Block, AbaHalt, Messgae, verify_message}
use bft_mvba.Mvba.Effects.{Effect, go_aba, aba_back, AbaTask, AbaBack, aba_halted, data_cbc}
use bft_mvba.Mvba.Aba.{run_aba, process_halt}
use bft_mvba.Mvba.Elector.{leader}
use bft_mvba.Mvba.Core.{
  Services, Core, aba_or_new, dispatch, receive, handle_aba_halt, get_aba_instance, run_aba_task,
  process_aba_back, invoke_stage_two, unfinished, get_block, decoded_block, output_block,
  output_hash, get_cbc_instance, cbc_or_new, put_back, put_back_own, commit_block,
  abvance_next_epoch, generate_block, handle_output,
}

abbrev back_of : Effect → List AbaBack
back_of (aba_back b) = b ∷ []
back_of _ = []

-- The results of agreements for the core.
abbrev pub backs : List Effect → List AbaBack
backs es = gather back_of es

-- What an instance that has not halted gives the core for a halt.
abbrev pub halt_back : AbaHalt → AbaBack
halt_back m = record {
  typ = aba_halted;
  epoch = m.epoch;
  ex_round = m.round;
  in_round = m.in_round;
  flag = m.flag;
  leader = m.leader;
}

-- The node after the message has been handled, and after the goroutine that it starts.
abbrev pub told : Services → AbaHalt → Core → Core
told sv m c = (receive sv (Messgae.aba_halt m) c).1

abbrev pub halting : Services → AbaHalt → Core → Core
halting sv m c = (run_aba_task m.epoch m.round (AbaTask.halt m) (told sv m c)).1

receive_halt :
    (sv : Services) (m : AbaHalt) (c : Core) (valid : Bool)
    → slt m.epoch c.epoch ≡ false
    → verify_message c.sig_service c.committee (Messgae.aba_halt m) ≡ ok valid
    → receive sv (Messgae.aba_halt m) c ≡ handle_aba_halt m c
unfolding receive dispatch
receive_halt sv m c valid new checked = rw checked refl

-- A halt whose check answers, be it yes or no, of an epoch that the node has not left, for an
-- agreement that has not halted, starts one goroutine; that goroutine halts the agreement and
-- gives the core its one result, which carries what the message says; the epoch, the elector and
-- the finished broadcasts stay as they are.
pub halt_reaches_core :
    (sv : Services) (m : AbaHalt) (c : Core) (valid : Bool)
    → slt m.epoch c.epoch ≡ false
    → verify_message c.sig_service c.committee (Messgae.aba_halt m) ≡ ok valid
    → (aba_or_new c m.epoch m.round).halt ≡ false
    → ((receive sv (Messgae.aba_halt m) c).2 ≡ go_aba m.epoch m.round (AbaTask.halt m) ∷ [])
      × (backs (run_aba_task m.epoch m.round (AbaTask.halt m) (told sv m c)).2 ≡ halt_back m ∷ [])
      × ((aba_or_new (halting sv m c) m.epoch m.round).halt ≡ true)
      × ((halting sv m c).epoch ≡ c.epoch)
      × ((halting sv m c).elector ≡ c.elector)
      × ((halting sv m c).cbc_final_indexs ≡ c.cbc_final_indexs)
unfolding handle_aba_halt get_aba_instance run_aba_task run_aba process_halt
halt_reaches_core sv m c valid new checked open_aba =
    let step = receive_halt sv m c valid new checked in
    (
      ground (arith, step),
      ground (arith, step),
      ground (arith, step),
      ground (arith, step),
      ground (arith, step),
      ground (arith, step),
    )

-- To ask for the vote of the round panics.
abbrev pub Fatal : Core → Int64 → Int64 → Type 0
Fatal c epoch round =
    (leader c.elector epoch round ≡ panic)
    ⊎ ((indexs : List Bool) × (leader c.elector epoch round ≡ ok no_node)
        × (c.cbc_final_indexs epoch ≡ some indexs)
        × (length indexs < 2 ^ 64 - 1))

unfinished-outside : (bs : List Bool) (i : NodeId) → length bs ≤ i → unfinished (some bs) i ≡ panic
unfinished-outside bs i h = rw (unfinished, get_elem-outside bs i h) refl

nobody_outside : (bs : List Bool) → length bs < 2 ^ 64 - 1 → unfinished (some bs) no_node ≡ panic
nobody_outside bs short = unfinished-outside bs no_node (unfold no_node in omega arith)

stage_two-crashes :
    (sv : Services) (m : AbaHalt) (c : Core)
    → m.flag ≡ flag_no
    → Fatal c m.epoch (inc m.round)
    → (process_aba_back sv (halt_back m) c).0 ≡ panic
unfolding process_aba_back invoke_stage_two
stage_two-crashes sv m c no_flag (inl none_there) = rw (no_flag, none_there) refl
stage_two-crashes sv m c no_flag (inr (indexs, nobody, made, short)) =
    rw (no_flag, nobody, made, nobody_outside indexs short) refl

decoded-total : (sv : Services) (r : Bytes × Option Error) → decoded_block sv r ≢ panic
decoded-total sv (value, some e) h = cc
decoded-total sv (value, none) h = ground arith

put_back-epoch :
    (sv : Services) (d : Option Digest) (c : Core)
    → ((put_back sv d c).0 ≡ ok tt) × ((put_back sv d c).1.epoch ≡ c.epoch)
unfolding get_block
put_back-epoch sv d c = (ground arith, ground arith)

put_back_own-epoch :
    (sv : Services) (e : Int64) (b : Block) (c : Core)
    → ((put_back_own sv e b c).0 ≡ ok tt) × ((put_back_own sv e b c).1.epoch ≡ c.epoch)
unfolding get_cbc_instance
put_back_own-epoch sv e b c =
    let k = (get_cbc_instance e c.name data_cbc c).1 in
    let d = (cbc_or_new c e c.name data_cbc).block_hash in
    (ground (arith, put_back-epoch sv d k), ground (arith, put_back-epoch sv d k))

-- The output of an epoch, whatever there is to put out, goes through and leaves the epoch as it is.
output_block-epoch :
    (sv : Services) (e : Int64) (l : NodeId) (r : Outcome Block) (c : Core)
    → r ≢ panic
    → ((output_block sv e l r c).0 ≡ ok tt) × ((output_block sv e l r c).1.epoch ≡ c.epoch)
unfolding commit_block get_cbc_instance
output_block-epoch sv e l (ok b) c known = (
  ground (arith, put_back_own-epoch sv e b (commit_block e l (some b) c).1),
  ground (arith, put_back_own-epoch sv e b (commit_block e l (some b) c).1),
)
output_block-epoch sv e l (err _) c known = (refl, refl)
output_block-epoch sv e l panic c known = absurd (known refl)

output_hash-epoch :
    (sv : Services) (e : Int64) (l : NodeId) (d : Option Digest) (c : Core)
    → ((output_hash sv e l d c).0 ≡ ok tt) × ((output_hash sv e l d c).1.epoch ≡ c.epoch)
unfolding get_block
output_hash-epoch sv e l none c = (refl, refl)
output_hash-epoch sv e l (some d) c =
    output_block-epoch sv e l (get_block sv c d) c (decoded-total sv _)

handle_output-epoch :
    (sv : Services) (m : AbaHalt) (c : Core)
    → m.flag ≡ flag_yes
    → slt c.epoch (inc m.epoch) ≡ true
    → (process_aba_back sv (halt_back m) c).1.epoch ≡ inc m.epoch
unfolding process_aba_back handle_output get_cbc_instance abvance_next_epoch generate_block
handle_output-epoch sv m c yes_flag ahead =
    let k = (get_cbc_instance m.epoch m.leader data_cbc c).1 in
    let d = (cbc_or_new c m.epoch m.leader data_cbc).block_hash in
    ground (arith, output_hash-epoch sv m.epoch m.leader d k)

-- A halt for no whose check answers, be it yes or no, of an epoch that the node has not left, for
-- an agreement that has not halted, ends in a panic once the message, the goroutine that it
-- starts and what that gives back are handled, if no leader can be asked for in the round after
-- its own, or the epoch has no leaders yet while fewer than 2 ^ 64 - 1 places for finished
-- broadcasts have been made in it.
pub no_halt_crashes :
    (sv : Services) (m : AbaHalt) (c : Core) (valid : Bool)
    → slt m.epoch c.epoch ≡ false
    → verify_message c.sig_service c.committee (Messgae.aba_halt m) ≡ ok valid
    → (aba_or_new c m.epoch m.round).halt ≡ false
    → m.flag ≡ flag_no
    → Fatal c m.epoch (inc m.round)
    → (process_aba_back sv (halt_back m) (halting sv m c)).0 ≡ panic
no_halt_crashes sv m c valid new checked open_aba no_flag bad =
    let (_, _, _, _, same_e, same_f) = halt_reaches_core sv m c valid new checked open_aba in
    stage_two-crashes sv m (halting sv m c) no_flag (rw (same_e, same_f) bad)

-- A halt for yes whose check answers, be it yes or no, of an epoch that the node has not left and
-- whose successor is later than the node's epoch, for an agreement that has not halted, ends that
-- epoch for the node: once the message, the goroutine that it starts and what that gives back are
-- handled, the node is in the next epoch.
pub one_halt_ends_epoch :
    (sv : Services) (m : AbaHalt) (c : Core) (valid : Bool)
    → slt m.epoch c.epoch ≡ false
    → verify_message c.sig_service c.committee (Messgae.aba_halt m) ≡ ok valid
    → (aba_or_new c m.epoch m.round).halt ≡ false
    → m.flag ≡ flag_yes
    → slt c.epoch (inc m.epoch) ≡ true
    → (process_aba_back sv (halt_back m) (halting sv m c)).1.epoch ≡ inc m.epoch
one_halt_ends_epoch sv m c valid new checked open_aba yes_flag ahead =
    let (_, _, _, same_epoch, _, _) = halt_reaches_core sv m c valid new checked open_aba in
    handle_output-epoch sv m (halting sv m c) yes_flag (rw same_epoch ahead)
