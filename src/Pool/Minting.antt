-- ===== src/Pool/Minting.antt =====
-- The identifiers of the batches that a node makes (pool/pool.go, `make`).
use native.Mathlib.Decide.{dec_lt}
use bft_mvba.Base.{
  ℕ, ◌+◌, ◌*◌, ◌%◌, ◌^◌, ◌<◌, ◌≤◌, ◌≡◌, refl, ap, inl, inr, Bool, true, false, List, [], ◌∷◌,
  Option, none, some, Outcome, ok, err, panic, length, All, All-append, inc, inc-small, arith, set,
  lt→ltb, le→ltb, length-append, Bool-cases, ltb, leb, ◌==◌, if◌then◌else◌,
}
use bft_mvba.Pool.Defs.{Transaction, Batch, TxQueue, next_batch, make, receive, get, receive_batch}

row_unique : (n i j k l : ℕ) → i < n → j < n → i + n * k ≡ j + n * l → (i ≡ j) × (k ≡ l)
row_unique n i j k l hi hj e = elim (dec_lt k l) [
  | yes less ↦ absurd (grind arith)
  | no most ↦ elim (dec_lt l k) [
    | yes more ↦ absurd (grind arith)
    | no same ↦
        let level : (k ≡ l) = omega arith in (omega (arith, ap (λ (t : ℕ). n * t) level), level)
  ]
]

-- Batches of two queues of one committee have the same identifier only if they are the batch of
-- the same number of the same node, as long as the identifiers fit 64 bits.
pub next_batch_unique :
    (q r : TxQueue)
    → q.n ≡ r.n
    → q.id < q.n
    → r.id < r.n
    → q.id + q.n * q.bcnt < 2 ^ 64
    → r.id + r.n * r.bcnt < 2 ^ 64
    → (next_batch q).id ≡ (next_batch r).id
    → (q.id ≡ r.id) × (q.bcnt ≡ r.bcnt)
unfolding next_batch
next_batch_unique q r en hq hr bq br e =
    row_unique q.n q.id r.id q.bcnt r.bcnt hq (omega arith)
      (omega (arith, ap (λ (t : ℕ). t * r.bcnt) en))

-- The batch was made by the queue's node, before the queue's count.
abbrev pub IsOwn : TxQueue → Batch → Type 0
IsOwn q b = (k : ℕ) × (k < q.bcnt) × (b.id ≡ (q.id + q.n * k) % 2 ^ 64)

-- Two queues of one node at different times.
record Later (q r : TxQueue) : Type 0 where
  same_n : r.n ≡ q.n
  same_id : r.id ≡ q.id
  grown : q.bcnt ≤ r.bcnt

IsOwn-Later : (q r : TxQueue) (b : Batch) → Later q r → IsOwn q b → IsOwn r b
IsOwn-Later q r b l (k, lt, e) = (k, omega (arith, l.grown), rw (l.same_id, l.same_n) e)

All-Later : (q r : TxQueue) (bs : List Batch) → Later q r → All (IsOwn q) bs → All (IsOwn r) bs
All-Later q r [] l h = tt
All-Later q r (b ∷ bs) l h = (IsOwn-Later q r b l h.0, All-Later q r bs l h.1)

make-IsOwn :
    (q : TxQueue)
    → q.bcnt < 2 ^ 63
    → All (IsOwn q) q.batch_channel
    → All (IsOwn (make q)) (make q).batch_channel
unfolding make next_batch
make-IsOwn q small h =
    All-append (IsOwn (make q)) q.batch_channel (next_batch q ∷ [])
      (All-Later q (make q) q.batch_channel
        (record { same_n = refl; same_id = refl; grown = omega (arith, inc-small q.bcnt small) }) h)
      ((q.bcnt, omega (arith, inc-small q.bcnt small), refl), tt)

-- A batch comes out, it is the node's own, and so is all that stays in the channel.
abbrev pub HandsOwn : Option (TxQueue × Batch) → Type 0
HandsOwn none = ⊥
HandsOwn (some (r, b)) = IsOwn r b × All (IsOwn r) r.batch_channel

receive_batch-HandsOwn :
    (q : TxQueue) (bs : List Batch)
    → 0 < length bs
    → All (IsOwn q) bs
    → HandsOwn (receive_batch q bs)
receive_batch-HandsOwn q [] some_there h = absurd (omega arith)
receive_batch-HandsOwn q (b ∷ bs) some_there h = (h.0, All-Later q _ bs same h.1)
  where
    same : Later q (record q { batch_channel = bs })
    same = record { same_n = refl; same_id = refl; grown = omega arith }

-- With fewer than 2 ^ 63 batches made, and none in the channel but those that the node made,
-- `get` does not wait: it hands out a batch that the node made, and what stays in the channel was
-- made by the node too.
pub get-HandsOwn :
    (q : TxQueue) → q.bcnt < 2 ^ 63 → All (IsOwn q) q.batch_channel → HandsOwn (get q)
unfolding get
get-HandsOwn q small h = elim (dec_lt 0 (length q.batch_channel)) [
  | yes filled ↦
      rw (lt→ltb 0 (length q.batch_channel) filled)
        (receive_batch-HandsOwn q q.batch_channel filled h)
  | no bare ↦ rw (le→ltb 0 (length q.batch_channel) (omega arith)) (
      receive_batch-HandsOwn (make q) (make q).batch_channel
        (omega (arith, length-append q.batch_channel (next_batch q ∷ []))) (make-IsOwn q small h))
]

-- What the loop of `run` leaves behind.
abbrev pub KeepsOwn : Outcome (TxQueue × Bool) → Type 0
KeepsOwn (ok (r, _)) = All (IsOwn r) r.batch_channel
KeepsOwn (err _) = ⊥
KeepsOwn panic = Unit

-- With fewer than 2 ^ 63 batches made, and none in the channel but those that the node made, a
-- transaction that comes either panics or leaves none in the channel but those that the node
-- made.
pub receive-KeepsOwn :
    (q : TxQueue) (tx : Transaction)
    → q.bcnt < 2 ^ 63
    → All (IsOwn q) q.batch_channel
    → KeepsOwn (receive q tx)
unfolding receive
receive-KeepsOwn q tx small h = elim (Bool-cases (q.wind == q.rind)) [
  | inl full ↦ rw full h
  | inr room ↦ rw room (elim (Bool-cases (ltb q.wind (length q.queue))) [
    | inl inside ↦
        rw inside
          (if_own (leb q.batch_size (inc q.nums)) (make-IsOwn stored small stored_own) stored_own)
    | inr out ↦ rw out tt
  ])
]
  where
    stored : TxQueue
    stored = record q {
      queue = set q.queue q.wind tx;
      wind = inc q.wind % q.max_queue_size;
      nums = inc q.nums;
    }

    stored_own : All (IsOwn stored) q.batch_channel
    stored_own =
        All-Later q stored q.batch_channel
          (record { same_n = refl; same_id = refl; grown = omega arith }) h

    if_own :
        (t : Bool)
        → KeepsOwn (ok (make stored, true))
        → KeepsOwn (ok (stored, true))
        → KeepsOwn (if t then ok (make stored, true) else ok (stored, true))
    if_own true made kept = made
    if_own false made kept = kept
