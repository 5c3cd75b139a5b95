-- ===== src/Pool/Defs.antt =====
-- pool/pool.go, pool/message.go and pool/config.go. The batch channel is the list of what stands in
-- it, the oldest first; a full channel, on which a send would wait, is left out.
use bft_mvba.Base.{
  ℕ, ◌+◌, ◌*◌, ◌%◌, ◌^◌, ◌-◌, Bool, true, false, Option, none, some, err, List, [], ◌∷◌, ◌++◌,
  length, replicate, set, Outcome, ok, panic, ltb, leb, ◌==◌, if◌then◌else◌, Int64, inc,
}

abbrev pub Transaction : Type 0
Transaction = List ℕ

pub record Batch : Type 0 where
  pub id : Int64
  pub txs : List Transaction

pub record Parameters : Type 0 where
  pub rate : ℕ
  pub tx_size : ℕ
  pub batch_size : ℕ
  pub max_queue_size : ℕ

pub record TxQueue : Type 0 where
  pub queue : List Transaction
  pub batch_channel : List Batch
  pub wind : Int64
  pub rind : Int64
  pub nums : Int64
  pub max_queue_size : ℕ
  pub batch_size : ℕ
  pub tx_size : ℕ
  pub n : ℕ
  pub id : ℕ
  pub bcnt : Int64

-- The literal gives no value for `txSize`, which so is 0.
unfoldable pub new_tx_queue : ℕ → ℕ → List Batch → ℕ → ℕ → ℕ → TxQueue
new_tx_queue max_queue_size batch_size batch_channel n id tx_size = record {
  queue = replicate max_queue_size [];
  batch_channel = batch_channel;
  wind = 0;
  rind = 2 ^ 64 - 1;
  nums = 0;
  max_queue_size = max_queue_size;
  batch_size = batch_size;
  tx_size = 0;
  n = n;
  id = id;
  bcnt = 0;
}

-- The batch that the next `make` sends.
unfoldable pub next_batch : TxQueue → Batch
next_batch q = record {
  id = (q.id + q.n * q.bcnt) % 2 ^ 64;
  txs = replicate q.batch_size (replicate q.tx_size 0);
}

unfoldable pub make : TxQueue → TxQueue
unfolding next_batch
make q = record q { batch_channel = q.batch_channel ++ next_batch q ∷ []; bcnt = inc q.bcnt }

-- One round of the loop of `run`; `true` says that the loop goes on.
unfoldable pub receive : TxQueue → Transaction → Outcome (TxQueue × Bool)
unfolding make
receive q tx =
    if q.wind == q.rind
    then ok (q, false)
    else if ltb q.wind (length q.queue)
    then (let q' = record q {
      queue = set q.queue q.wind tx;
      wind = inc q.wind % q.max_queue_size;
      nums = inc q.nums;
    } in
        if leb q.batch_size q'.nums then ok (make q', true) else ok (q', true))
    else panic

-- `run` on the transactions that come, until the pool is full.
unfoldable pub run : TxQueue → List Transaction → Outcome TxQueue
unfolding receive
run q [] = ok q
run q (tx ∷ rest) = elim (receive q tx) [
  | ok (q', more) ↦ elim more [ true ↦ run q' rest | false ↦ ok q' ]
  | err e ↦ err e
  | panic ↦ panic
]

unfoldable pub put : TxQueue → Batch → TxQueue
put q b = record q { batch_channel = q.batch_channel ++ b ∷ [] }

-- `<-q.batchChannel` on a channel that holds something; else the receive would wait (`none`).
abbrev pub receive_batch : TxQueue → List Batch → Option (TxQueue × Batch)
receive_batch q [] = none
receive_batch q (b ∷ rest) = some (record q { batch_channel = rest }, b)

unfoldable pub get : TxQueue → Option (TxQueue × Batch)
unfolding make
get q =
    if ltb 0 (length q.batch_channel)
    then receive_batch q q.batch_channel
    else (let q' = make q in receive_batch q' q'.batch_channel)

pub record Pool : Type 0 where
  pub parameters : Parameters
  pub queue : TxQueue

unfoldable pub new_pool : Parameters → ℕ → ℕ → Pool
unfolding new_tx_queue
new_pool p n id = record {
  parameters = p;
  queue = new_tx_queue p.max_queue_size p.batch_size [] n id p.tx_size;
}

unfoldable pub get_batch : Pool → Option (Pool × Batch)
unfolding get
get_batch p = elim (get p.queue) [ none ↦ none | some (q, b) ↦ some (record p { queue = q }, b) ]

unfoldable pub put_batch : Pool → Batch → Pool
unfolding put
put_batch p b = record p { queue = put p.queue b }
