-- ===== src/Mvba/Core/State.antt =====
-- core/mvba/consensus/core.go: `Core`, and its reads and writes of the maps and the store.
use bft_mvba.Methods.{Method, Identity}
use bft_mvba.Base.{
  Bool, true, false, ◌&&◌, List, [], ◌∷◌, length, ltb, get_elem?, set, replicate, Option, none,
  some, Outcome, ok, err, panic, Error, if◌then◌else◌, ◌==◌, Int64, slt, inc, put, put2, put3,
  or_new,
}
use bft_mvba.Committee.{NodeId, size}
use bft_mvba.Crypto.{Bytes, Digest, digest_bytes}
use bft_mvba.Pool
use bft_mvba.Pool.{Pool, Batch}
use bft_mvba.Store.{History, Db, read, write}
use bft_mvba.Mvba.Messages.{Uint8, flag_no, Slice, Block, new_block, block_hash, Vote}
use bft_mvba.Mvba.Effects.{Effect, to_commit, data_cbc}
use bft_mvba.Mvba.Counters.{Aggreator, new_aggreator}
use bft_mvba.Mvba.Commits.{Commitor, new_commitor, commit}
use bft_mvba.Mvba.Cbc.{Cbc, new_cbc}
use bft_mvba.Mvba.Aba.{Aba, new_aba}
use bft_mvba.Mvba.Elector.{Shuffle, Elector, new_elector}

-- The database, gob's encoding of a block with its errors, and the shuffle of Go's math/rand.
pub record Services : Type 0 where
  pub db : Db
  pub encode : Block → Bytes × Option Error
  pub decode : Bytes → Block × Option Error
  pub shuffle : Shuffle

pub record Core : Type 0 where
  pub identity : Identity
  pub open identity use *
  pub store : History
  pub tx_pool : Pool
  pub commitor : Commitor Block
  pub elector : Elector
  pub aggreator : Aggreator
  pub epoch : Int64
  pub cbc_instances : Int64 → NodeId → Uint8 → Option Cbc
  pub cbc_final_cnts : Int64 → Option (Uint8 → Int64)
  pub cbc_final_indexs : Int64 → Option (List Bool)
  pub commitments : Int64 → NodeId → Option (Option Slice)
  pub aba_instances : Int64 → Int64 → Option Aba
  pub aba_invoke_flag : Int64 → Int64 → Int64 → Uint8 → Bool

unfoldable pub new_core : Identity → History → Pool → Core
unfolding new_elector
new_core n h pool = record {
  identity = n;
  store = h;
  tx_pool = pool;
  commitor = new_commitor;
  elector = new_elector n.committee n.sig_service;
  aggreator = new_aggreator n.committee n.sig_service;
  epoch = 0;
  cbc_instances = λ _ _ _. none;
  cbc_final_cnts = λ _. none;
  cbc_final_indexs = λ _. none;
  commitments = λ _ _. none;
  aba_instances = λ _ _. none;
  aba_invoke_flag = λ _ _ _ _. false;
}

abbrev pub M : Type 0 → Type 0
M A = Method Core Effect A

abbrev pub outcome_of : Option Error → Outcome (Unit {0})
outcome_of none = ok tt
outcome_of (some e) = err e

abbrev pub store_encoded : Services → Digest → Bytes × Option Error → M (Unit {0})
store_encoded sv d (value, some e) c = (err e, c, [])
store_encoded sv d (value, none) c =
    let (e, h) = write sv.db c.store (digest_bytes d) value in
    (outcome_of e, record c { store = h }, [])

-- A nil block panics when it is hashed.
unfoldable pub store_block : Services → Option Block → M (Unit {0})
unfolding block_hash
store_block sv none c = (panic, c, [])
store_block sv (some b) c = store_encoded sv (block_hash c.sig_service b) (sv.encode b) c

abbrev pub decoded_block : Services → Bytes × Option Error → Outcome Block
decoded_block sv (value, some e) = err e
decoded_block sv (value, none) =
    let (b, e) = sv.decode value in elim e [ none ↦ ok b | some x ↦ err x ]

unfoldable pub get_block : Services → Core → Digest → Outcome Block
get_block sv c d = decoded_block sv (read sv.db c.store (digest_bytes d))

abbrev pub cbc_or_new : Core → Int64 → NodeId → Uint8 → Cbc
cbc_or_new c epoch node tag = or_new (c.cbc_instances epoch node tag) (new_cbc node epoch)

abbrev pub keep_cbc : Core → Int64 → NodeId → Uint8 → Cbc → Core
keep_cbc c epoch node tag s = record c {
  cbc_instances = put3 c.cbc_instances epoch node tag (some s);
}

-- The instance, made and put into the map where it is not there.
unfoldable pub get_cbc_instance : Int64 → NodeId → Uint8 → M Cbc
unfolding new_cbc
get_cbc_instance epoch node tag c =
    let s = cbc_or_new c epoch node tag in (ok s, keep_cbc c epoch node tag s, [])

abbrev pub aba_or_new : Core → Int64 → Int64 → Aba
aba_or_new c epoch round = or_new (c.aba_instances epoch round) (new_aba epoch round)

abbrev pub keep_aba : Core → Int64 → Int64 → Aba → Core
keep_aba c epoch round s = record c { aba_instances = put2 c.aba_instances epoch round (some s) }

unfoldable pub get_aba_instance : Int64 → Int64 → M Aba
unfolding new_aba
get_aba_instance epoch round c =
    let s = aba_or_new c epoch round in (ok s, keep_aba c epoch round s, [])

unfoldable pub is_invoke_aba : Core → Int64 → Int64 → Int64 → Uint8 → Bool
is_invoke_aba c epoch round in_round tag = c.aba_invoke_flag epoch round in_round tag

abbrev pub set_invoke_aba : Core → Int64 → Int64 → Int64 → Uint8 → Core
set_invoke_aba c epoch round in_round tag = record c {
  aba_invoke_flag = λ e r i t.
      if epoch == e && round == r && in_round == i && tag == t
      then true
      else c.aba_invoke_flag e r i t;
}

abbrev pub no_finals : Uint8 → Int64
no_finals _ = 0

-- The maps of an epoch, made where they are not there.
abbrev with_finals : Core → Int64 → Core
with_finals c epoch = elim (c.cbc_final_cnts epoch) [
  | some _ ↦ c
  | none ↦ record c {
    cbc_final_cnts = put c.cbc_final_cnts epoch (some no_finals);
    cbc_final_indexs = put c.cbc_final_indexs epoch (some (replicate (size c.committee) false));
  }
]

-- `c.cbcFinalIndexs[epoch][node] = true` panics out of range.
abbrev record_final : Core → Int64 → NodeId → Outcome Core
record_final c epoch node =
    let indexs = or_new (c.cbc_final_indexs epoch) [] in
    if ltb node (length indexs)
    then ok
        (record c { cbc_final_indexs = put c.cbc_final_indexs epoch (some (set indexs node true)) })
    else panic

abbrev count_final : Int64 → Uint8 → Core → Int64 × Core
count_final epoch tag c =
    let items = or_new (c.cbc_final_cnts epoch) no_finals in
    (
      inc (items tag),
      record c {
        cbc_final_cnts = put c.cbc_final_cnts epoch (some (put items tag (inc (items tag))));
      },
    )

abbrev counted : Int64 → Uint8 → Core → Outcome Core → Outcome Int64 × Core × List Effect
counted epoch tag c0 (ok c) = let (cnt, c') = count_final epoch tag c in (ok cnt, c', [])
counted epoch tag c0 (err e) = (err e, c0, [])
counted epoch tag c0 panic = (panic, c0, [])

unfoldable pub add_finals : Int64 → Uint8 → NodeId → M Int64
add_finals epoch tag node c =
    let c' = with_finals c epoch in
    counted epoch tag c' (if tag == data_cbc then record_final c' epoch node else ok c')

unfoldable pub add_commitment : Int64 → NodeId → Option Slice → Core → Core
add_commitment epoch node commitment c = record c {
  commitments = put2 c.commitments epoch node (some commitment);
}

-- What stands in a slice now.
abbrev pub slice_of : Core → Slice → List Bool
slice_of c (Slice.shared epoch) = or_new (c.cbc_final_indexs epoch) []
slice_of c (Slice.own bs) = bs

abbrev bit_at : List Bool → NodeId → Outcome Bool
bit_at bs node = elim (get_elem? bs node) [ none ↦ panic | some b ↦ ok b ]

abbrev listed : Core → NodeId → Option (Option Slice) → Outcome Bool
listed c node none = ok false
listed c node (some none) = ok false
listed c node (some (some s)) = bit_at (slice_of c s) node

-- `item[vote.Leader]` panics out of range.
unfoldable pub check_vote : Core → Vote → Outcome Bool
check_vote c v =
    if v.flag == flag_no then listed c v.leader (c.commitments v.epoch v.author) else ok false

abbrev pub message_filter : Core → Int64 → Bool
message_filter c epoch = slt epoch c.epoch

-- A block around the next batch; a pool that had none would make the call wait for ever.
unfoldable pub generate_block : Int64 → M Block
generate_block epoch c = elim (Pool.get_batch c.tx_pool) [
  | none ↦ (panic, c, [])
  | some (pool, batch) ↦ (ok (new_block c.name batch epoch), record c { tx_pool = pool }, [])
]

abbrev pub commit_effects : List (Int64 × Block) → List Effect
commit_effects [] = []
commit_effects ((e, b) ∷ bs) = to_commit e b ∷ commit_effects bs

-- `c.Commitor.Commit(epoch, leader, b)`
unfoldable pub commit_block : Int64 → NodeId → Option Block → M (Unit {0})
unfolding commit
commit_block epoch leader b c =
    let (bs, k) = commit c.commitor epoch leader b in
    (ok tt, record c { commitor = k }, commit_effects bs)

abbrev pub put_batch : Batch → M (Unit {0})
put_batch batch c = (ok tt, record c { tx_pool = Pool.put_batch c.tx_pool batch }, [])
