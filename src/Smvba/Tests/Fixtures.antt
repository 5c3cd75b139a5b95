-- ===== src/Smvba/Tests/Fixtures.antt =====
-- Blocks of core/smvba/consensus/ and the services for them.
use bft_mvba.Base.{[], ◌∷◌, Option, none, some, Error, err_other, Int64}
use bft_mvba.Committee.{NodeId}
use bft_mvba.Crypto.{Bytes}
use bft_mvba.Fixtures.{db}
use bft_mvba.Smvba.Messages.{Block, new_block}
use bft_mvba.Smvba.Core.{Services}

abbrev decoded : Bytes → Block × Option Error
decoded (p ∷ e ∷ i ∷ []) = (new_block p (record { id = i; txs = [] }) e, none)
decoded _ = (new_block 0 (record { id = 0; txs = [] }) 0, some (err_other 2))

abbrev pub services : Services
services = record {
  db = db;
  encode = λ b. (b.proposer ∷ b.epoch ∷ b.batch.id ∷ [], none);
  decode = decoded;
}

abbrev pub block_of : NodeId → Int64 → Block
block_of p e = new_block p (record { id = p; txs = [] }) e
