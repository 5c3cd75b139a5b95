-- ===== src/Smvba/Core/State.antt =====
-- core/smvba/consensus/core.go: `Core`, and its reads and writes of the maps and the store. A
-- method takes the state and gives its result, the state after it, and what it did, in order.
use bft_mvba.Methods.{Identity, Method}
use bft_mvba.Base.{
  Bool, false, List, [], ◌∷◌, Option, none, some, Outcome, ok, err, panic, Error, err_not_found_key,
  err_signature, err_one_more_message, err_other, Int64, slt, put3,
}
use bft_mvba.Committee.{NodeId}
use bft_mvba.Crypto.{Bytes, Digest, digest_bytes}
use bft_mvba.Pool
use bft_mvba.Pool.{Pool, Batch}
use bft_mvba.Store.{History, Db, read, write}
use bft_mvba.Committor.{Committor, new_committor, commit}
use bft_mvba.Smvba.Messages.{Block, new_block, block_hash}
use bft_mvba.Smvba.Effects.{Effect, to_commit}
use bft_mvba.Smvba.Aggreator.{Aggreator, new_aggreator}
use bft_mvba.Smvba.Elector.{Elector, new_elector}
use bft_mvba.Smvba.Spb.{Spb, new_spb}

-- The database, and gob's encoding of a block with its errors.
pub record Services : Type 0 where
  pub db : Db
  pub encode : Block → Bytes × Option Error
  pub decode : Bytes → Block × Option Error

pub record Core : Type 0 where
  pub identity : Identity
  pub open identity use *
  pub store : History
  pub tx_pool : Pool
  pub aggreator : Aggreator
  pub elector : Elector
  pub commitor : Committor Block
  pub finish_flags : Int64 → Int64 → NodeId → Option Digest
  pub spb_instances : Int64 → Int64 → NodeId → Option Spb
  pub done_flags : Int64 → Int64 → Bool
  pub ready_flags : Int64 → Int64 → Bool
  pub halt_flags : Int64 → Bool
  pub epoch : Int64

unfoldable pub new_core : Identity → History → Pool → Core
unfolding new_aggreator new_elector
new_core n h pool = record {
  identity = n;
  store = h;
  tx_pool = pool;
  aggreator = new_aggreator n.committee;
  elector = new_elector n.sig_service n.committee;
  commitor = new_committor;
  finish_flags = λ _ _ _. none;
  spb_instances = λ _ _ _. none;
  done_flags = λ _ _. false;
  ready_flags = λ _ _. false;
  halt_flags = λ _. false;
  epoch = 0;
}

abbrev pub M : Type 0 → Type 0
M A = Method Core Effect A

abbrev pub message_filter : Core → Int64 → Bool
message_filter c epoch = slt epoch c.epoch

abbrev pub outcome_of : Option Error → Outcome (Unit {0})
outcome_of none = ok tt
outcome_of (some e) = err e

abbrev pub store_encoded : Services → Digest → Bytes × Option Error → M (Unit {0})
store_encoded sv d (value, some e) c = (err e, c, [])
store_encoded sv d (value, none) c =
    let (e, h) = write sv.db c.store (digest_bytes d) value in
    (outcome_of e, record c { store = h }, [])

unfoldable pub store_block : Services → Block → M (Unit {0})
store_block sv b c = store_encoded sv (block_hash c.sig_service b) (sv.encode b) c

-- `nil` for a key that the store does not know, by its own error value.
abbrev pub found_block : Services → Bytes × Option Error → Outcome (Option Block)
found_block sv (value, some err_not_found_key) = ok none
found_block sv (value, some (err_signature t)) = err (err_signature t)
found_block sv (value, some (err_one_more_message t e r a)) = err (err_one_more_message t e r a)
found_block sv (value, some (err_other n)) = err (err_other n)
found_block sv (value, none) =
    let (b, e) = sv.decode value in elim e [ none ↦ ok (some b) | some x ↦ err x ]

unfoldable pub get_block : Services → Core → Digest → Outcome (Option Block)
get_block sv c d = found_block sv (read sv.db c.store (digest_bytes d))

abbrev pub spb_or_new : Core → Int64 → Int64 → NodeId → Spb
spb_or_new c epoch round node = elim (c.spb_instances epoch round node) [
  | some s ↦ s
  | none ↦ new_spb epoch round node
]

-- The instance, made and put into the map where it is not there.
unfoldable pub get_spb_instance : Int64 → Int64 → NodeId → M Spb
get_spb_instance epoch round node c =
    let s = spb_or_new c epoch round node in
    (ok s, record c { spb_instances = put3 c.spb_instances epoch round node (some s) }, [])

unfoldable pub has_finish : Core → Int64 → Int64 → NodeId → Option Digest
has_finish c epoch round node = c.finish_flags epoch round node

unfoldable pub has_ready : Core → Int64 → Int64 → Bool
has_ready c epoch round = c.ready_flags epoch round

unfoldable pub has_done : Core → Int64 → Int64 → Bool
has_done c epoch round = c.done_flags epoch round

-- A block around the next batch; a pool that had none would make the call wait for ever.
unfoldable pub generator_block : Int64 → M Block
generator_block epoch c = elim (Pool.get_batch c.tx_pool) [
  | none ↦ (panic, c, [])
  | some (pool, batch) ↦ (ok (new_block c.name batch epoch), record c { tx_pool = pool }, [])
]

abbrev pub commit_effects : List Block → List Effect
commit_effects [] = []
commit_effects (b ∷ bs) = to_commit b ∷ commit_effects bs

-- `c.Commitor.Commit(b)`
unfoldable pub commit_block : Block → M (Unit {0})
commit_block b c =
    let (bs, k) = commit (λ (x : Block). x.epoch) c.commitor b in
    (ok tt, record c { commitor = k }, commit_effects bs)
