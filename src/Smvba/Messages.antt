-- ===== src/Smvba/Messages.antt =====
-- core/smvba/consensus/message.go: the block and the messages, how each is hashed, signed and
-- verified. A pointer to a block that may be nil is an `Option`; what reads through a nil pointer
-- panics.
use bft_mvba.Base.{[], Option, Int64, Int8}
use bft_mvba.Committee.{NodeId}
use bft_mvba.Pool.{Batch}
use bft_mvba.Crypto.{
  Digest, SigService, Signature, SignatureShare, Hasher, new_hasher, add, sum256, append_int,
}

abbrev pub spb_one_phase : Int8
spb_one_phase = 0

abbrev pub spb_two_phase : Int8
spb_two_phase = 1

abbrev pub vote_flag_yes : Int8
vote_flag_yes = 0

abbrev pub vote_flag_no : Int8
vote_flag_no = 1

pub record Block : Type 0 where
  pub proposer : NodeId
  pub batch : Batch
  pub epoch : Int64

abbrev pub new_block : NodeId → Batch → Int64 → Block
new_block proposer batch epoch = record { proposer = proposer; batch = batch; epoch = epoch }

-- What `Hash` feeds to the hasher.
unfoldable pub block_bytes : Block → Hasher
block_bytes b =
    add (add (add new_hasher (append_int b.proposer)) (append_int b.epoch)) (append_int b.batch.id)

unfoldable pub block_hash : SigService → Block → Digest
unfolding block_bytes
block_hash s b = (sum256 s (block_bytes b) []).0

pub record SpbProposal : Type 0 where
  pub author : NodeId
  pub b : Option Block
  pub epoch : Int64
  pub round : Int64
  pub phase : Int8
  pub signature : Signature

pub record SpbVote : Type 0 where
  pub author : NodeId
  pub proposer : NodeId
  pub block_hash : Digest
  pub epoch : Int64
  pub round : Int64
  pub phase : Int8
  pub signature : Signature

pub record Finish : Type 0 where
  pub author : NodeId
  pub block_hash : Digest
  pub epoch : Int64
  pub round : Int64
  pub signature : Signature

pub record Done : Type 0 where
  pub author : NodeId
  pub epoch : Int64
  pub round : Int64
  pub signature : Signature

pub record ElectShare : Type 0 where
  pub author : NodeId
  pub epoch : Int64
  pub round : Int64
  pub sig_share : SignatureShare

pub record Prevote : Type 0 where
  pub author : NodeId
  pub leader : NodeId
  pub epoch : Int64
  pub round : Int64
  pub flag : Int8
  pub block_hash : Digest
  pub signature : Signature

pub record FinVote : Type 0 where
  pub author : NodeId
  pub leader : NodeId
  pub epoch : Int64
  pub round : Int64
  pub flag : Int8
  pub block_hash : Digest
  pub signature : Signature

pub record Halt : Type 0 where
  pub author : NodeId
  pub epoch : Int64
  pub round : Int64
  pub leader : NodeId
  pub block_hash : Digest
  pub signature : Signature
