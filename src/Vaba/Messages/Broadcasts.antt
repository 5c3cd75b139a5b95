-- ===== src/Vaba/Messages/Broadcasts.antt =====
-- core/vaba/consensus/message.go: the block, and the messages of a promotion and of its end.
use bft_mvba.Base.{int64_of_int8, [], Bool, Option, none, some, Outcome, Int64, Int8}
use bft_mvba.Committee.{NodeId, Committee, name_of}
use bft_mvba.Pool.{Batch}
use bft_mvba.Crypto.{
  Digest, SigService, Signature, Hasher, new_hasher, add, sum256, digest_bytes, append_int, verify,
  request_signature,
}

abbrev pub phase_one_falg : Int8
phase_one_falg = 0

abbrev pub phase_two_falg : Int8
phase_two_falg = 1

abbrev pub phase_three_falg : Int8
phase_three_falg = 2

abbrev pub phase_four_falg : Int8
phase_four_falg = 3

-- A message before it is signed carries Go's zero value.
abbrev pub unsigned : Signature
unsigned = record { sig = [] }

pub record Block : Type 0 where
  pub proposer : NodeId
  pub batch : Batch
  pub epoch : Int64

abbrev pub new_block : NodeId → Batch → Int64 → Block
new_block proposer batch epoch = record { proposer = proposer; batch = batch; epoch = epoch }

unfoldable pub block_hash : SigService → Block → Digest
block_hash s b =
    (sum256 s
      (add (add (add new_hasher (append_int b.proposer)) (append_int b.epoch))
        (append_int b.batch.id))
      []).0

-- The block part of a proposal's hash, if there is a block.
abbrev add_block : SigService → Hasher → Option Block → Hasher
add_block s h none = h
add_block s h (some b) = add h (digest_bytes (block_hash s b))

pub record Proposal : Type 0 where
  pub author : NodeId
  pub epoch : Int64
  pub phase : Int8
  pub b : Option Block
  pub signature : Signature

unfoldable pub proposal_hash : SigService → Proposal → Digest
proposal_hash s m =
    (sum256 s
      (add_block s
        (add (add (add new_hasher (append_int m.author)) (append_int (int64_of_int8 m.phase)))
          (append_int m.epoch))
        m.b)
      []).0

unfoldable pub new_proposal : SigService → NodeId → Int64 → Int8 → Option Block → Proposal
unfolding proposal_hash
new_proposal s author epoch phase b = record m {
  signature = request_signature s (proposal_hash s m);
}
  where
    m : Proposal
    m = record { author = author; epoch = epoch; phase = phase; b = b; signature = unsigned }

unfoldable pub proposal_verify : SigService → Proposal → Committee → Outcome Bool
unfolding proposal_hash verify
proposal_verify s m c = verify s m.signature (name_of c m.author) (proposal_hash s m)

pub record Vote : Type 0 where
  pub author : NodeId
  pub proposer : NodeId
  pub block_hash : Digest
  pub epoch : Int64
  pub phase : Int8
  pub signature : Signature

unfoldable pub vote_hash : SigService → Vote → Digest
vote_hash s m =
    (sum256 s
      (add
        (add
          (add (add (add new_hasher (append_int m.author)) (append_int (int64_of_int8 m.phase)))
            (append_int m.epoch))
          (append_int m.proposer))
        (digest_bytes m.block_hash))
      []).0

unfoldable pub new_vote : SigService → NodeId → NodeId → Digest → Int64 → Int8 → Vote
unfolding vote_hash
new_vote s author proposer block_hash epoch phase = record m {
  signature = request_signature s (vote_hash s m);
}
  where
    m : Vote
    m = record {
      author = author;
      proposer = proposer;
      block_hash = block_hash;
      epoch = epoch;
      phase = phase;
      signature = unsigned;
    }

unfoldable pub vote_verify : SigService → Vote → Committee → Outcome Bool
unfolding vote_hash verify
vote_verify s m c = verify s m.signature (name_of c m.author) (vote_hash s m)

pub record Done : Type 0 where
  pub author : NodeId
  pub epoch : Int64
  pub signature : Signature

unfoldable pub done_hash : SigService → Done → Digest
done_hash s m = (sum256 s (add (add new_hasher (append_int m.author)) (append_int m.epoch)) []).0

unfoldable pub new_done : SigService → NodeId → Int64 → Done
unfolding done_hash
new_done s author epoch = record m { signature = request_signature s (done_hash s m) }
  where
    m : Done
    m = record { author = author; epoch = epoch; signature = unsigned }

unfoldable pub done_verify : SigService → Done → Committee → Outcome Bool
unfolding done_hash verify
done_verify s m c = verify s m.signature (name_of c m.author) (done_hash s m)

pub record SkipShare : Type 0 where
  pub author : NodeId
  pub epoch : Int64
  pub signature : Signature

unfoldable pub skip_share_hash : SigService → SkipShare → Digest
skip_share_hash s m =
    (sum256 s (add (add new_hasher (append_int m.epoch)) (append_int m.author)) []).0

unfoldable pub new_skip_share : SigService → NodeId → Int64 → SkipShare
unfolding skip_share_hash
new_skip_share s author epoch = record m { signature = request_signature s (skip_share_hash s m) }
  where
    m : SkipShare
    m = record { author = author; epoch = epoch; signature = unsigned }

unfoldable pub skip_share_verify : SigService → SkipShare → Committee → Outcome Bool
unfolding skip_share_hash verify
skip_share_verify s m c = verify s m.signature (name_of c m.author) (skip_share_hash s m)

pub record Skip : Type 0 where
  pub author : NodeId
  pub epoch : Int64
  pub signature : Signature

unfoldable pub skip_hash : SigService → Skip → Digest
skip_hash s m = (sum256 s (add (add new_hasher (append_int m.epoch)) (append_int m.author)) []).0

unfoldable pub new_skip : SigService → NodeId → Int64 → Skip
unfolding skip_hash
new_skip s author epoch = record m { signature = request_signature s (skip_hash s m) }
  where
    m : Skip
    m = record { author = author; epoch = epoch; signature = unsigned }

unfoldable pub skip_verify : SigService → Skip → Committee → Outcome Bool
unfolding skip_hash verify
skip_verify s m c = verify s m.signature (name_of c m.author) (skip_hash s m)
