-- ===== src/Mvba/Messages/Blocks.antt =====
-- core/mvba/consensus/message.go: the block and its proposal. A pointer to a block that may be nil is
-- an `Option`; what reads through a nil pointer panics.
use bft_mvba.Base.{ℕ, Bool, [], Option, none, some, Outcome, ok, err, panic, Int64}
use bft_mvba.Committee.{NodeId, Committee, name_of}
use bft_mvba.Crypto.{
  Digest, SigService, Signature, SignatureShare, new_hasher, add, sum256, le_bytes, digest_bytes,
  append_int, verify, request_signature,
}
use bft_mvba.Pool.{Batch}

abbrev pub Uint8 : Type 0
Uint8 = ℕ

abbrev pub flag_yes : Uint8
flag_yes = 0

abbrev pub flag_no : Uint8
flag_no = 1

-- A message before it is signed carries Go's zero value.
abbrev pub unsigned : Signature
unsigned = record { sig = [] }

abbrev pub unshared : SignatureShare
unshared = record { partial_sig = [] }

pub record Block : Type 0 where
  pub proposer : NodeId
  pub batch : Batch
  pub epoch : Int64

abbrev pub new_block : NodeId → Batch → Int64 → Block
new_block proposer batch epoch = record { proposer = proposer; batch = batch; epoch = epoch }

unfoldable pub block_hash : SigService → Block → Digest
unfolding append_int
block_hash s b =
    (sum256 s
      (add (add (add new_hasher (append_int b.proposer)) (append_int b.epoch))
        (append_int b.batch.id))
      []).0

pub record Proposal : Type 0 where
  pub author : NodeId
  pub b : Option Block
  pub epoch : Int64
  pub signature : Signature

abbrev proposal_digest : SigService → Proposal → Option Block → Outcome Digest
proposal_digest s m none = panic
proposal_digest s m (some b) =
    ok
      (sum256 s
        (add (add (add new_hasher (le_bytes 8 m.author)) (le_bytes 8 m.epoch))
          (digest_bytes (block_hash s b)))
        []).0

-- `p.B.Hash()` panics on a nil block.
unfoldable pub proposal_hash : SigService → Proposal → Outcome Digest
unfolding block_hash le_bytes digest_bytes
proposal_hash s m = proposal_digest s m m.b

abbrev sign_proposal : SigService → Proposal → Outcome Digest → Outcome Proposal
sign_proposal s m (ok d) = ok (record m { signature = request_signature s d })
sign_proposal s m (err e) = err e
sign_proposal s m panic = panic

unfoldable pub new_proposal : SigService → NodeId → Option Block → Int64 → Outcome Proposal
unfolding proposal_hash
new_proposal s author b epoch = sign_proposal s m (proposal_hash s m)
  where
    m : Proposal
    m = record { author = author; b = b; epoch = epoch; signature = unsigned }

abbrev check_proposal : SigService → Proposal → Committee → Outcome Digest → Outcome Bool
check_proposal s m c (ok d) = verify s m.signature (name_of c m.author) d
check_proposal s m c (err e) = err e
check_proposal s m c panic = panic

unfoldable pub proposal_verify : SigService → Proposal → Committee → Outcome Bool
unfolding proposal_hash verify
proposal_verify s m c = check_proposal s m c (proposal_hash s m)
