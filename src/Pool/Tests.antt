-- ===== src/Pool/Tests.antt =====
-- pool/pool.go on a pool of the first of four nodes.
use bft_mvba.Base.{◌+◌, ◌*◌, ◌≡◌, refl, [], ◌∷◌, replicate, All, arith}
use bft_mvba.Pool.Defs.{Batch, Parameters, TxQueue, next_batch}
use bft_mvba.Pool.Minting.{IsOwn, next_batch_unique}

abbrev parameters : Parameters
parameters = record { rate = 1; tx_size = 16; batch_size = 2; max_queue_size = 4 }

abbrev own_batch : Batch
own_batch = record { id = 1 + 4 * 2; txs = [] }

-- The queue of node 1 of four, which has made three batches and holds the last one.
abbrev queue : TxQueue
queue = record {
  queue = replicate 4 [];
  batch_channel = own_batch ∷ [];
  wind = 0;
  rind = 3;
  nums = 1;
  max_queue_size = 4;
  batch_size = 2;
  tx_size = 0;
  n = 4;
  id = 1;
  bcnt = 3;
}

queue-IsOwn : All (IsOwn queue) queue.batch_channel
queue-IsOwn = ((2, omega arith, refl), tt)

next_batch_unique_example : (queue.id ≡ queue.id) × (queue.bcnt ≡ queue.bcnt)
next_batch_unique_example =
    next_batch_unique queue (record queue { nums = 0 }) refl (omega arith) (omega arith)
      (omega arith) (omega arith) (unfold next_batch in refl)
