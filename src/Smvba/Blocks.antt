-- ===== src/Smvba/Blocks.antt =====
-- core/smvba/consensus/message.go, `Block.Hash`: what tells two blocks apart.
use mathlib.Core.List.{append_assoc, append_cancel_left}
use bft_mvba.Base.{ℕ, List, ◌++◌, slt, ◌≡◌, refl, ◌↔◌, ap, ◌^◌, ◌<◌}
use bft_mvba.Crypto.{SigService, append_int, format_bits, Hasher}
use bft_mvba.Crypto.Digits.{append_int-injective}
use bft_mvba.Committee.{NodeId}
use bft_mvba.Pool.{Transaction}
use bft_mvba.Smvba.Messages.{Block, block_bytes, block_hash}

-- Two blocks of one proposer and one epoch, with 64-bit batch identifiers, are hashed from the
-- same bytes exactly if the identifiers are the same, whatever transactions they hold.
pub block_bytes_iff :
    (b d : Block)
    → b.proposer ≡ d.proposer
    → b.epoch ≡ d.epoch
    → b.batch.id < 2 ^ 64
    → d.batch.id < 2 ^ 64
    → ((block_bytes b ≡ block_bytes d) ↔ (b.batch.id ≡ d.batch.id))
unfolding block_bytes
block_bytes_iff b d same_p same_e small_b small_d = (only, λ e. rw (same_p, same_e, e) refl)
  where
    head : List ℕ
    head = append_int d.proposer ++ append_int d.epoch

    only : block_bytes b ≡ block_bytes d → b.batch.id ≡ d.batch.id
    only e = append_int-injective b.batch.id d.batch.id small_b small_d (
        append_cancel_left head (append_int b.batch.id) (append_int d.batch.id)
          (rw (same_p, same_e) at (ap (λ (h : Hasher). h.bytes) e)))

same_digits : append_int 2 ++ append_int 13 ≡ append_int 5 ++ append_int 5
unfolding append_int format_bits slt
same_digits = refl

-- The digits of the epoch and of the identifier are not kept apart: a block of epoch 2 around batch
-- 13 and one of epoch 5 around batch 5, of one proposer, have one hash.
pub block_hash_collides :
    (s : SigService) (p : NodeId) (xs ys : List Transaction)
    → block_hash s (record { proposer = p; batch = record { id = 13; txs = xs }; epoch = 2 })
      ≡ block_hash s (record { proposer = p; batch = record { id = 5; txs = ys }; epoch = 5 })
unfolding block_hash block_bytes
block_hash_collides s p xs ys =
    rw
      (
        append_assoc (append_int p) (append_int 2) (append_int 13),
        append_assoc (append_int p) (append_int 5) (append_int 5),
        same_digits,
      )
      refl
