-- ===== src/Pool/Order.antt =====
-- The order of the batches (pool/pool.go, `put` and `get`), and what they hold.
use mathlib.Core.List.{append-nil}
use bft_mvba.Base.{
  ℕ, zero, suc, ◌+◌, ◌≡◌, refl, sym, List, [], ◌∷◌, ◌++◌, Option, none, some, length, arith,
  length-append, replicate,
}
use bft_mvba.Pool.Defs.{
  Batch, Parameters, TxQueue, new_tx_queue, next_batch, put, get, Pool, new_pool, get_batch,
}

-- The batches that `n` calls of `get` hand out, and the queue after them.
unfoldable pub get_many : ℕ → TxQueue → Option (TxQueue × List Batch)
get_many zero q = some (q, [])
get_many (suc n) q = elim (get q) [
  | none ↦ none
  | some (q', b) ↦ elim (get_many n q') [ none ↦ none | some (q'', bs) ↦ some (q'', b ∷ bs) ]
]

get-cons :
    (q : TxQueue) (b : Batch) (bs : List Batch)
    → q.batch_channel ≡ b ∷ bs
    → get q ≡ some (record q { batch_channel = bs }, b)
unfolding get
get-cons q b bs e = ground arith

get_many-length :
    (q : TxQueue) (bs rest : List Batch)
    → q.batch_channel ≡ bs ++ rest
    → get_many (length bs) q ≡ some (record q { batch_channel = rest }, bs)
unfolding get_many
get_many-length q [] rest e = ground arith
get_many-length q (b ∷ bs) rest e =
    rw (get-cons q b (bs ++ rest) e, get_many)
      (rw (get_many-length (record q { batch_channel = bs ++ rest }) bs rest refl, get_many) refl)

-- A batch that is put back is handed out behind all that stands in the channel, in the order of
-- the channel.
pub put-get_many :
    (q : TxQueue) (b : Batch)
    → get_many (length q.batch_channel + 1) (put q b)
      ≡ some (record q { batch_channel = [] }, q.batch_channel ++ b ∷ [])
unfolding put
put-get_many q b =
    rw (← length-append q.batch_channel (b ∷ []))
      (get_many-length (put q b) (q.batch_channel ++ b ∷ []) [] (sym (append-nil _)))

-- A new pool hands out a batch of as many transactions as the parameters ask for, each of them
-- empty, whatever transaction size they ask for.
pub get_batch-empty_txs :
    (p : Parameters) (n id : ℕ)
    → (pool : Pool) × (b : Batch) × (get_batch (new_pool p n id) ≡ some (pool, b))
      × (b.txs ≡ replicate p.batch_size [])
unfolding get_batch get new_pool new_tx_queue next_batch
get_batch-empty_txs p n id = (_, _, refl, refl)
