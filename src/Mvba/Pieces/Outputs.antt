-- ===== src/Mvba/Pieces/Outputs.antt =====
-- core/mvba/consensus/core.go: what agreements give back, and the output, keep to what their pieces keep to.
use bft_mvba.Base.{
  List, Option, none, some, Outcome, ok, err, panic, ◌==◌, if◌then◌else◌, Int64, inc,
}
use bft_mvba.Committee.{NodeId}
use bft_mvba.Crypto.{Digest}
use bft_mvba.Methods.{
  mixed-bind, mixed-next, Respects, Respects-bind, Respects-if, ◌>>=◌, ◌>>◌, return_nil, lift,
}
use bft_mvba.Mvba.Messages.{flag_yes, flag_no, Block}
use bft_mvba.Mvba.Effects.{Effect, AbaBack, data_cbc, aba_invoke, aba_halted}
use bft_mvba.Mvba.Core.{
  Services, Core, M, commit_block, get_block, get_cbc_instance, invoke_stage_two, invoke_aba_val,
  abvance_next_epoch, put_back, put_back_own, output_block, output_hash, handle_output,
  process_aba_back,
}
use bft_mvba.Mvba.Pieces.Defs.{Pieces}
use bft_mvba.Mvba.Pieces.Handlers.{still, weak}

module _ {ℓ} {sv : Services} {Q R : Core → Core → List Effect → Type ℓ} (p : Pieces sv Q R) where
  put_back_own-Respects : (e : Int64) (b : Block) → Respects Q (put_back_own sv e b)
  put_back_own-Respects e b c =
      let own = get_cbc_instance e c.name data_cbc in
      Respects-if Q (b.proposer == c.name) return_nil (own >>= λ s. put_back sv s.block_hash)
        (λ _. still p (ok tt))
        (λ _.
          Respects-bind p.trace own (λ s. put_back sv s.block_hash) (p.cbc e c.name data_cbc)
            (λ s. p.puts_back s.block_hash))
        c

  output_block-Respects :
      (e : Int64) (l : NodeId) (r : Outcome Block) → Respects R (output_block sv e l r)
  output_block-Respects e l (ok b) =
      mixed-next p.last (commit_block e l (some b)) (put_back_own sv e b) (p.commits e l (some b))
        (put_back_own-Respects e b)
  output_block-Respects e l (err _) = p.commits e l none
  output_block-Respects e l panic =
      weak p {A = Unit {0}} (lift panic) (still p {A = Unit {0}} panic)

  output_hash-Respects :
      (e : Int64) (l : NodeId) (d : Option Digest) → Respects R (output_hash sv e l d)
  output_hash-Respects e l none = weak p return_nil (still p (ok tt))
  output_hash-Respects e l (some d) = λ c. output_block-Respects e l (get_block sv c d) c

  handle_output-Respects : (e : Int64) (l : NodeId) → Respects R (handle_output sv e l)
  unfolding handle_output
  handle_output-Respects e l =
      mixed-bind p.first (get_cbc_instance e l data_cbc)
        (λ s. output_hash sv e l s.block_hash >> abvance_next_epoch (inc e)) (p.cbc e l data_cbc)
        (λ s.
          mixed-next p.last (output_hash sv e l s.block_hash) (abvance_next_epoch (inc e))
            (output_hash-Respects e l s.block_hash) (p.advances (inc e)))

  pub process_aba_back-Respects : (b : AbaBack) → Respects R (process_aba_back sv b)
  unfolding process_aba_back
  process_aba_back-Respects b =
      let on_yes = if b.flag == flag_yes then handle_output sv b.epoch b.leader else return_nil in
      let on_halt : M (Unit {0}) =
        if b.flag == flag_no then invoke_stage_two b.epoch (inc b.ex_round) else on_yes in
      let other : M (Unit {0}) = if b.typ == aba_halted then on_halt else return_nil in
      Respects-if R (b.typ == aba_invoke)
        (invoke_aba_val b.leader b.epoch b.ex_round b.in_round b.flag) other
        (λ _.
          weak p (invoke_aba_val b.leader b.epoch b.ex_round b.in_round b.flag)
            (p.invokes b.leader b.epoch b.ex_round b.in_round b.flag))
        (λ _.
          Respects-if R (b.typ == aba_halted) on_halt return_nil
            (λ _.
              Respects-if R (b.flag == flag_no) (invoke_stage_two b.epoch (inc b.ex_round)) on_yes
                (λ _.
                  weak p (invoke_stage_two b.epoch (inc b.ex_round))
                    (p.votes b.epoch (inc b.ex_round)))
                (λ _.
                  Respects-if R (b.flag == flag_yes) (handle_output sv b.epoch b.leader) return_nil
                    (λ _. handle_output-Respects b.epoch b.leader)
                    (λ _. weak p return_nil (still p (ok tt)))))
            (λ _. weak p return_nil (still p (ok tt))))
