-- ===== src/Smvba/Signing/Broadcasts.antt =====
-- core/smvba/consensus/message.go: making, hashing and checking the messages of a broadcast.
use bft_mvba.Base.{int64_of_int8, [], Bool, Option, none, some, Outcome, Int64, Int8}
use bft_mvba.Committee.{NodeId, Committee, name_of}
use bft_mvba.Crypto.{
  Digest, SigService, Signature, Hasher, new_hasher, add, sum256, digest_bytes, append_int, verify,
  request_signature,
}
use bft_mvba.Smvba.Messages.{Block, block_hash, SpbProposal, SpbVote, Finish}

-- A message before it is signed carries Go's zero value.
abbrev pub unsigned : Signature
unsigned = record { sig = [] }

-- The block part of a proposal's hash, if there is a block.
abbrev add_block : SigService → Hasher → Option Block → Hasher
add_block s h none = h
add_block s h (some b) = add h (digest_bytes (block_hash s b))

unfoldable pub spb_proposal_hash : SigService → SpbProposal → Digest
spb_proposal_hash s m =
    (sum256 s
      (add_block s
        (add
          (add (add (add new_hasher (append_int m.author)) (append_int m.epoch))
            (append_int m.round))
          (append_int (int64_of_int8 m.phase)))
        m.b)
      []).0

unfoldable pub new_spb_proposal :
    SigService → NodeId → Option Block → Int64 → Int64 → Int8 → SpbProposal
unfolding spb_proposal_hash
new_spb_proposal s author b epoch round phase = record m {
  signature = request_signature s (spb_proposal_hash s m);
}
  where
    m : SpbProposal
    m = record {
      author = author;
      b = b;
      epoch = epoch;
      round = round;
      phase = phase;
      signature = unsigned;
    }

unfoldable pub spb_proposal_verify : SigService → SpbProposal → Committee → Outcome Bool
unfolding spb_proposal_hash verify
spb_proposal_verify s m c = verify s m.signature (name_of c m.author) (spb_proposal_hash s m)

unfoldable pub spb_vote_hash : SigService → SpbVote → Digest
spb_vote_hash s m =
    (sum256 s
      (add
        (add
          (add (add (add new_hasher (append_int m.author)) (append_int m.epoch))
            (append_int m.round))
          (append_int (int64_of_int8 m.phase)))
        (digest_bytes m.block_hash))
      []).0

unfoldable pub new_spb_vote : SigService → NodeId → NodeId → Digest → Int64 → Int64 → Int8 → SpbVote
unfolding spb_vote_hash
new_spb_vote s author proposer block_hash epoch round phase = record m {
  signature = request_signature s (spb_vote_hash s m);
}
  where
    m : SpbVote
    m = record {
      author = author;
      proposer = proposer;
      block_hash = block_hash;
      epoch = epoch;
      round = round;
      phase = phase;
      signature = unsigned;
    }

unfoldable pub spb_vote_verify : SigService → SpbVote → Committee → Outcome Bool
unfolding spb_vote_hash verify
spb_vote_verify s m c = verify s m.signature (name_of c m.author) (spb_vote_hash s m)

unfoldable pub finish_hash : SigService → Finish → Digest
finish_hash s m =
    (sum256 s
      (add
        (add (add (add new_hasher (digest_bytes m.block_hash)) (append_int m.author))
          (append_int m.epoch))
        (append_int m.round))
      []).0

unfoldable pub new_finish : SigService → NodeId → Digest → Int64 → Int64 → Finish
unfolding finish_hash
new_finish s author block_hash epoch round = record m {
  signature = request_signature s (finish_hash s m);
}
  where
    m : Finish
    m = record {
      author = author;
      block_hash = block_hash;
      epoch = epoch;
      round = round;
      signature = unsigned;
    }

unfoldable pub finish_verify : SigService → Finish → Committee → Outcome Bool
unfolding finish_hash verify
finish_verify s m c = verify s m.signature (name_of c m.author) (finish_hash s m)
