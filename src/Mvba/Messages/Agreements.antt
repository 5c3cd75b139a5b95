-- ===== src/Mvba/Messages/Agreements.antt =====
-- core/mvba/consensus/message.go: the votes and the messages of the binary agreement.
use bft_mvba.Base.{Bool, [], ◌∷◌, Outcome, ok, Int64}
use bft_mvba.Committee.{NodeId, Committee, name_of}
use bft_mvba.Crypto.{
  Digest, SigService, Signature, SignatureShare, new_hasher, add, sum256, be_bytes, verify,
  share_verify, request_signature, request_ts_sugnature,
}
use bft_mvba.Mvba.Messages.Blocks.{Uint8, unsigned, unshared}

pub record Vote : Type 0 where
  pub author : NodeId
  pub leader : NodeId
  pub epoch : Int64
  pub round : Int64
  pub flag : Uint8
  pub signature : Signature

unfoldable pub vote_hash : SigService → Vote → Digest
unfolding be_bytes
vote_hash s m =
    (sum256 s
      (add
        (add (add (add new_hasher (be_bytes 8 m.author)) (be_bytes 8 m.leader))
          (be_bytes 8 m.epoch))
        (m.flag ∷ []))
      []).0

unfoldable pub new_vote : SigService → NodeId → NodeId → Int64 → Int64 → Uint8 → Vote
unfolding vote_hash
new_vote s author leader epoch round flag = record m {
  signature = request_signature s (vote_hash s m);
}
  where
    m : Vote
    m = record {
      author = author;
      leader = leader;
      epoch = epoch;
      round = round;
      flag = flag;
      signature = unsigned;
    }

unfoldable pub vote_verify : SigService → Vote → Committee → Outcome Bool
unfolding vote_hash verify
vote_verify s m c = verify s m.signature (name_of c m.author) (vote_hash s m)

pub record AbaVal : Type 0 where
  pub author : NodeId
  pub leader : NodeId
  pub epoch : Int64
  pub round : Int64
  pub in_round : Int64
  pub flag : Uint8
  pub signature : Signature

unfoldable pub aba_val_hash : SigService → AbaVal → Digest
unfolding be_bytes
aba_val_hash s m =
    (sum256 s
      (add
        (add (add (add new_hasher (be_bytes 8 m.author)) (be_bytes 8 m.leader))
          (be_bytes 8 m.epoch))
        (m.flag ∷ []))
      []).0

unfoldable pub new_aba_val : SigService → NodeId → NodeId → Int64 → Int64 → Int64 → Uint8 → AbaVal
unfolding aba_val_hash
new_aba_val s author leader epoch round in_round flag = record m {
  signature = request_signature s (aba_val_hash s m);
}
  where
    m : AbaVal
    m = record {
      author = author;
      leader = leader;
      epoch = epoch;
      round = round;
      in_round = in_round;
      flag = flag;
      signature = unsigned;
    }

unfoldable pub aba_val_verify : SigService → AbaVal → Committee → Outcome Bool
unfolding aba_val_hash verify
aba_val_verify s m c = verify s m.signature (name_of c m.author) (aba_val_hash s m)

pub record AbaMux : Type 0 where
  pub author : NodeId
  pub leader : NodeId
  pub epoch : Int64
  pub round : Int64
  pub in_round : Int64
  pub flag : Uint8
  pub signature : Signature

unfoldable pub aba_mux_hash : SigService → AbaMux → Digest
unfolding be_bytes
aba_mux_hash s m =
    (sum256 s
      (add
        (add (add (add new_hasher (be_bytes 8 m.author)) (be_bytes 8 m.leader))
          (be_bytes 8 m.epoch))
        (m.flag ∷ []))
      []).0

unfoldable pub new_aba_mux : SigService → NodeId → NodeId → Int64 → Int64 → Int64 → Uint8 → AbaMux
unfolding aba_mux_hash
new_aba_mux s author leader epoch round in_round flag = record m {
  signature = request_signature s (aba_mux_hash s m);
}
  where
    m : AbaMux
    m = record {
      author = author;
      leader = leader;
      epoch = epoch;
      round = round;
      in_round = in_round;
      flag = flag;
      signature = unsigned;
    }

unfoldable pub aba_mux_verify : SigService → AbaMux → Committee → Outcome Bool
unfolding aba_mux_hash verify
aba_mux_verify s m c = verify s m.signature (name_of c m.author) (aba_mux_hash s m)

pub record CoinShare : Type 0 where
  pub author : NodeId
  pub leader : NodeId
  pub epoch : Int64
  pub round : Int64
  pub in_round : Int64
  pub share : SignatureShare

unfoldable pub coin_share_hash : SigService → CoinShare → Digest
unfolding be_bytes
coin_share_hash s m =
    (sum256 s
      (add (add (add new_hasher (be_bytes 8 m.leader)) (be_bytes 8 m.epoch))
        (be_bytes 8 m.in_round))
      []).0

unfoldable pub new_coin_share : SigService → NodeId → NodeId → Int64 → Int64 → Int64 → CoinShare
unfolding coin_share_hash
new_coin_share s author leader epoch round in_round = record m {
  share = request_ts_sugnature s (coin_share_hash s m);
}
  where
    m : CoinShare
    m = record {
      author = author;
      leader = leader;
      epoch = epoch;
      round = round;
      in_round = in_round;
      share = unshared;
    }

unfoldable pub coin_share_verify : SigService → CoinShare → Committee → Outcome Bool
unfolding coin_share_hash share_verify
coin_share_verify s m c = ok (share_verify m.share (coin_share_hash s m))

pub record AbaHalt : Type 0 where
  pub author : NodeId
  pub leader : NodeId
  pub epoch : Int64
  pub round : Int64
  pub in_round : Int64
  pub flag : Uint8
  pub signature : Signature

unfoldable pub aba_halt_hash : SigService → AbaHalt → Digest
unfolding be_bytes
aba_halt_hash s m =
    (sum256 s
      (add
        (add (add (add new_hasher (be_bytes 8 m.author)) (be_bytes 8 m.leader))
          (be_bytes 8 m.epoch))
        (m.flag ∷ []))
      []).0

unfoldable pub new_aba_halt : SigService → NodeId → NodeId → Int64 → Int64 → Int64 → Uint8 → AbaHalt
unfolding aba_halt_hash
new_aba_halt s author leader epoch round in_round flag = record m {
  signature = request_signature s (aba_halt_hash s m);
}
  where
    m : AbaHalt
    m = record {
      author = author;
      leader = leader;
      epoch = epoch;
      round = round;
      in_round = in_round;
      flag = flag;
      signature = unsigned;
    }

unfoldable pub aba_halt_verify : SigService → AbaHalt → Committee → Outcome Bool
unfolding aba_halt_hash verify
aba_halt_verify s m c = verify s m.signature (name_of c m.author) (aba_halt_hash s m)
