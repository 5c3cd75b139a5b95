-- ===== src/Mvba/Pieces/Defs.antt =====
-- core/mvba/consensus/core.go: what the methods are composed of, as far as relations are concerned.
use bft_mvba.Base.{List, [], ◌∷◌, Option, Int64}
use bft_mvba.Committee.{NodeId}
use bft_mvba.Crypto.{Digest}
use bft_mvba.Methods.{Mixes, IsTrace, Respects, emit}
use bft_mvba.Mvba.Messages.{Uint8, Block, ElectShare, Vote, CoinShare}
use bft_mvba.Mvba.Effects.{Effect, go_cbc, go_aba, CbcTask, AbaTask}
use bft_mvba.Mvba.Counters.{add_vote, add_coin_share}
use bft_mvba.Mvba.Core.{
  Services, Core, commit_block, store_block, get_cbc_instance, get_aba_instance, aggregated,
  elected, invoke_stage_two, invoke_aba_val, abvance_next_epoch, put_back,
}

-- What the methods are composed of keeps to the one relation, and the commitor to the other one.
pub record Pieces {ℓ} (sv : Services) (Q R : Core → Core → List Effect → Type ℓ) : Type ℓ where
  pub trace : IsTrace Q
  pub first : Mixes Q R R
  pub last : Mixes R Q R
  pub commits : (e : Int64) (l : NodeId) (b : Option Block) → Respects R (commit_block e l b)
  pub stores : (b : Option Block) → Respects Q (store_block sv b)
  pub cbc : (e : Int64) (n : NodeId) (t : Uint8) → Respects Q (get_cbc_instance e n t)
  pub aba : (e r : Int64) → Respects Q (get_aba_instance e r)
  pub goes_cbc :
      (e : Int64) (n : NodeId) (t : Uint8) (k : CbcTask) → Respects Q (emit (go_cbc e n t k ∷ []))
  pub goes_aba : (e r : Int64) (k : AbaTask) → Respects Q (emit (go_aba e r k ∷ []))
  pub counts_vote : (v : Vote) → Respects Q (aggregated (λ a. add_vote a v))
  pub counts_coin : (m : CoinShare) → Respects Q (aggregated (λ a. add_coin_share a m))
  pub elects : (m : ElectShare) → Respects Q (elected sv m)
  pub votes : (e r : Int64) → Respects Q (invoke_stage_two e r)
  pub invokes : (l : NodeId) (e r i : Int64) (f : Uint8) → Respects Q (invoke_aba_val l e r i f)
  pub advances : (e : Int64) → Respects Q (abvance_next_epoch e)
  pub puts_back : (d : Option Digest) → Respects Q (put_back sv d)

-- A relation that goes along with chaining, by itself.
pub Mixes-alone {ℓ} : {R : Core → Core → List Effect → Type ℓ} → IsTrace R → Mixes R R R
Mixes-alone t = record { stop = λ c d es h. h; go = λ c d k es fs h g. t.chain c d k es fs h g }
