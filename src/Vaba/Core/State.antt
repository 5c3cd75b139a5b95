-- ===== src/Vaba/Core/State.antt =====
-- core/vaba/consensus/core.go: `Core`, and its reads and writes of the maps and the store. A
-- method takes the state and gives its result, the state after it, and what it did, in order.
use bft_mvba.Methods.{Identity, Method}
use bft_mvba.Base.{
  Bool, true, false, List, [], ◌∷◌, Option, none, some, Outcome, ok, err, panic, Error,
  err_not_found_key, err_signature, err_one_more_message, err_other, Int64, slt, put, put2,
}
use bft_mvba.Committee.{NodeId}
use bft_mvba.Crypto.{Bytes, Digest, digest_bytes}
use bft_mvba.Pool
use bft_mvba.Pool.{Pool, Batch}
use bft_mvba.Store.{History, Db, read, write}
use bft_mvba.Committor.{Committor, new_committor}
use bft_mvba.Vaba.Messages.{Block, new_block, block_hash}
use bft_mvba.Vaba.Effects.{Effect, to_commit}
use bft_mvba.Vaba.Aggreator.{Aggreator, new_aggreator}
use bft_mvba.Vaba.Elector.{Elector, new_elector}
use bft_mvba.Vaba.Commits
use bft_mvba.Vaba.Promote.{Promote, new_promote}

-- The database, and gob's encoding of a block with its errors.
pub record Services : Type 0 where
  pub db : Db
  pub encode : Block → Bytes × Option Error
  pub decode : Bytes → Block × Option Error

pub record Core : Type 0 where
  pub identity : Identity
  pub open identity use *
  pub store : History
  pub tx_pool : Pool
  pub commitor : Committor Block
  pub aggreator : Aggreator
  pub elector : Elector
  pub epoch : Int64
  pub lock : Int64
  pub pb_instances : Int64 → NodeId → Option Promote
  pub skip_flag : Int64 → Bool
  pub elect_flag : Int64 → Bool
  pub view_change_flag : Int64 → Bool
  pub view_change_cnts : Int64 → Int64
  pub commit_flag : Int64 → Bool

unfoldable pub new_core : Identity → History → Pool → Core
unfolding new_aggreator new_elector
new_core n h pool = record {
  identity = n;
  store = h;
  tx_pool = pool;
  commitor = new_committor;
  aggreator = new_aggreator n.committee;
  elector = new_elector n.sig_service n.committee;
  epoch = 0;
  lock = 0;
  pb_instances = λ _ _. none;
  skip_flag = λ _. false;
  elect_flag = λ _. false;
  view_change_flag = λ _. false;
  view_change_cnts = λ _. 0;
  commit_flag = λ _. false;
}

abbrev pub M : Type 0 → Type 0
M A = Method Core Effect A

abbrev pub message_filter : Core → Int64 → Bool
message_filter c epoch = slt epoch c.epoch

unfoldable pub is_skip : Core → Int64 → Bool
is_skip c epoch = c.skip_flag epoch

unfoldable pub set_skip : Int64 → M (Unit {0})
set_skip epoch c = (ok tt, record c { skip_flag = put c.skip_flag epoch true }, [])

abbrev pub outcome_of : Option Error → Outcome (Unit {0})
outcome_of none = ok tt
outcome_of (some e) = err e

abbrev pub store_encoded : Services → Digest → Bytes × Option Error → M (Unit {0})
store_encoded sv d (value, some e) c = (err e, c, [])
store_encoded sv d (value, none) c =
    let (e, h) = write sv.db c.store (digest_bytes d) value in
    (outcome_of e, record c { store = h }, [])

-- The hash of a nil block panics.
unfoldable pub store_block : Services → Option Block → M (Unit {0})
store_block sv none c = (panic, c, [])
store_block sv (some b) c = store_encoded sv (block_hash c.sig_service b) (sv.encode b) c

-- `nil` for a key that the store does not know, by its own error value.
abbrev pub found_block : Services → Bytes × Option Error → Outcome (Option Block)
found_block sv (value, some err_not_found_key) = ok none
found_block sv (value, some (err_signature t)) = err (err_signature t)
found_block sv (value, some (err_one_more_message t e r a)) = err (err_one_more_message t e r a)
found_block sv (value, some (err_other n)) = err (err_other n)
found_block sv (value, none) =
    let (b, e) = sv.decode value in elim e [ none ↦ ok (some b) | some x ↦ err x ]

unfoldable pub get_block : Services → Core → Digest → Outcome (Option Block)
get_block sv c d = found_block sv (read sv.db c.store (digest_bytes d))

abbrev pub pb_or_new : Core → Int64 → NodeId → Promote
pb_or_new c epoch node = elim (c.pb_instances epoch node) [
  | some s ↦ s
  | none ↦ new_promote epoch node
]

-- The instance, made and put into the map where it is not there.
unfoldable pub get_pb_instance : Int64 → NodeId → M Promote
get_pb_instance epoch node c =
    let s = pb_or_new c epoch node in
    (ok s, record c { pb_instances = put2 c.pb_instances epoch node (some s) }, [])

-- A block around the next batch; a pool that had none would make the call wait for ever.
unfoldable pub generator_block : Int64 → M Block
generator_block epoch c = elim (Pool.get_batch c.tx_pool) [
  | none ↦ (panic, c, [])
  | some (pool, batch) ↦ (ok (new_block c.name batch epoch), record c { tx_pool = pool }, [])
]

abbrev pub commit_effects : List Block → List Effect
commit_effects [] = []
commit_effects (b ∷ bs) = to_commit b ∷ commit_effects bs

abbrev pub committed : Outcome (List Block × Committor Block) → M (Unit {0})
committed (ok (bs, k)) c = (ok tt, record c { commitor = k }, commit_effects bs)
committed (err e) c = (err e, c, [])
committed panic c = (panic, c, [])

-- `c.Commitor.Commit(b)`
unfoldable pub commit_call : Option Block → M (Unit {0})
commit_call b c = committed (Commits.commit_block c.commitor b) c
