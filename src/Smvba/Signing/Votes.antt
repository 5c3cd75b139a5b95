-- ===== src/Smvba/Signing/Votes.antt =====
-- core/smvba/consensus/message.go: making, hashing and checking the messages of a round's end.
use bft_mvba.Base.{int64_of_int8, [], Bool, Outcome, ok, Int64, Int8}
use bft_mvba.Committee.{NodeId, Committee, name_of}
use bft_mvba.Crypto.{
  Digest, SigService, new_hasher, add, sum256, digest_bytes, append_int, verify, share_verify,
  request_signature, request_ts_sugnature,
}
use bft_mvba.Smvba.Messages.{block_hash, Done, ElectShare, Prevote, FinVote, Halt}
use bft_mvba.Smvba.Signing.Broadcasts.{unsigned}

unfoldable pub done_hash : SigService → Done → Digest
done_hash s m =
    (sum256 s
      (add (add (add new_hasher (append_int m.author)) (append_int m.epoch)) (append_int m.round))
      []).0

unfoldable pub new_done : SigService → NodeId → Int64 → Int64 → Done
unfolding done_hash
new_done s author epoch round = record m { signature = request_signature s (done_hash s m) }
  where
    m : Done
    m = record { author = author; epoch = epoch; round = round; signature = unsigned }

unfoldable pub done_verify : SigService → Done → Committee → Outcome Bool
unfolding done_hash verify
done_verify s m c = verify s m.signature (name_of c m.author) (done_hash s m)

unfoldable pub prevote_hash : SigService → Prevote → Digest
prevote_hash s m =
    (sum256 s
      (add
        (add
          (add
            (add (add (add new_hasher (append_int m.author)) (append_int m.leader))
              (append_int m.epoch))
            (append_int m.round))
          (append_int (int64_of_int8 m.flag)))
        (digest_bytes m.block_hash))
      []).0

unfoldable pub new_prevote : SigService → NodeId → NodeId → Int64 → Int64 → Int8 → Digest → Prevote
unfolding prevote_hash
new_prevote s author leader epoch round flag block_hash = record m {
  signature = request_signature s (prevote_hash s m);
}
  where
    m : Prevote
    m = record {
      author = author;
      leader = leader;
      epoch = epoch;
      round = round;
      flag = flag;
      block_hash = block_hash;
      signature = unsigned;
    }

unfoldable pub prevote_verify : SigService → Prevote → Committee → Outcome Bool
unfolding prevote_hash verify
prevote_verify s m c = verify s m.signature (name_of c m.author) (prevote_hash s m)

unfoldable pub fin_vote_hash : SigService → FinVote → Digest
fin_vote_hash s m =
    (sum256 s
      (add
        (add
          (add
            (add (add (add new_hasher (append_int m.author)) (append_int m.leader))
              (append_int m.epoch))
            (append_int m.round))
          (append_int (int64_of_int8 m.flag)))
        (digest_bytes m.block_hash))
      []).0

-- The literal gives no value for `Leader`, which so is 0.
unfoldable pub new_fin_vote : SigService → NodeId → NodeId → Int64 → Int64 → Int8 → Digest → FinVote
unfolding fin_vote_hash
new_fin_vote s author leader epoch round flag block_hash = record m {
  signature = request_signature s (fin_vote_hash s m);
}
  where
    m : FinVote
    m = record {
      author = author;
      leader = 0;
      epoch = epoch;
      round = round;
      flag = flag;
      block_hash = block_hash;
      signature = unsigned;
    }

unfoldable pub fin_vote_verify : SigService → FinVote → Committee → Outcome Bool
unfolding fin_vote_hash verify
fin_vote_verify s m c = verify s m.signature (name_of c m.author) (fin_vote_hash s m)

unfoldable pub halt_hash : SigService → Halt → Digest
halt_hash s m =
    (sum256 s
      (add
        (add (add (add new_hasher (append_int m.author)) (append_int m.epoch))
          (append_int m.leader))
        (digest_bytes m.block_hash))
      []).0

unfoldable pub new_halt : SigService → NodeId → NodeId → Digest → Int64 → Int64 → Halt
unfolding halt_hash
new_halt s author leader block_hash epoch round = record m {
  signature = request_signature s (halt_hash s m);
}
  where
    m : Halt
    m = record {
      author = author;
      leader = leader;
      block_hash = block_hash;
      epoch = epoch;
      round = round;
      signature = unsigned;
    }

unfoldable pub halt_verify : SigService → Halt → Committee → Outcome Bool
unfolding halt_hash verify
halt_verify s m c = verify s m.signature (name_of c m.author) (halt_hash s m)

unfoldable pub elect_share_hash : SigService → ElectShare → Digest
elect_share_hash s m =
    (sum256 s (add (add new_hasher (append_int m.epoch)) (append_int m.round)) []).0

unfoldable pub new_elect_share : SigService → NodeId → Int64 → Int64 → ElectShare
unfolding elect_share_hash
new_elect_share s author epoch round = record m {
  sig_share = request_ts_sugnature s (elect_share_hash s m);
}
  where
    m : ElectShare
    m = record {
      author = author;
      epoch = epoch;
      round = round;
      sig_share = record { partial_sig = [] };
    }

unfoldable pub elect_share_verify : SigService → ElectShare → Committee → Outcome Bool
unfolding elect_share_hash share_verify
elect_share_verify s m c = ok (share_verify m.sig_share (elect_share_hash s m))
