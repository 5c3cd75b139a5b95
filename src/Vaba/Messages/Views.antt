-- ===== src/Vaba/Messages/Views.antt =====
-- core/vaba/consensus/message.go: the shares that elect the leader, and the messages of a view.
use bft_mvba.Base.{◌∷◌, [], Bool, true, false, Option, Outcome, ok, Int64}
use bft_mvba.Committee.{NodeId, Committee, name_of}
use bft_mvba.Crypto.{
  Bytes, Digest, SigService, Signature, SignatureShare, new_hasher, add, sum256, digest_bytes,
  append_int, verify, share_verify, request_signature, request_ts_sugnature,
}
use bft_mvba.Vaba.Messages.Broadcasts.{unsigned}

abbrev unshared : SignatureShare
unshared = record { partial_sig = [] }

-- `strconv.AppendBool(nil, b)`
unfoldable pub append_bool : Bool → Bytes
append_bool true = 116 ∷ 114 ∷ 117 ∷ 101 ∷ []
append_bool false = 102 ∷ 97 ∷ 108 ∷ 115 ∷ 101 ∷ []

pub record ElectShare : Type 0 where
  pub author : NodeId
  pub epoch : Int64
  pub sig_share : SignatureShare

unfoldable pub elect_share_hash : SigService → ElectShare → Digest
elect_share_hash s m = (sum256 s (add new_hasher (append_int m.epoch)) []).0

unfoldable pub new_elect_share : SigService → NodeId → Int64 → ElectShare
unfolding elect_share_hash
new_elect_share s author epoch = record m {
  sig_share = request_ts_sugnature s (elect_share_hash s m);
}
  where
    m : ElectShare
    m = record { author = author; epoch = epoch; sig_share = unshared }

unfoldable pub elect_share_verify : SigService → ElectShare → Committee → Outcome Bool
unfolding elect_share_hash share_verify
elect_share_verify s m c = ok (share_verify m.sig_share (elect_share_hash s m))

pub record ViewChange : Type 0 where
  pub author : NodeId
  pub leader : NodeId
  pub epoch : Int64
  pub block_hash : Option Digest
  pub is_commit : Bool
  pub is_lock : Bool
  pub is_key : Bool
  pub signature : Signature

unfoldable pub view_change_hash : SigService → ViewChange → Digest
unfolding append_bool
view_change_hash s m =
    (sum256 s
      (add
        (add (add (add new_hasher (append_int m.author)) (append_bool m.is_commit))
          (append_bool m.is_lock))
        (append_bool m.is_key))
      []).0

unfoldable pub new_view_change :
    SigService → NodeId → NodeId → Int64 → Option Digest → Bool → Bool → Bool → ViewChange
unfolding view_change_hash
new_view_change s author leader epoch block_hash is_commit is_lock is_key = record m {
  signature = request_signature s (view_change_hash s m);
}
  where
    m : ViewChange
    m = record {
      author = author;
      leader = leader;
      epoch = epoch;
      block_hash = block_hash;
      is_commit = is_commit;
      is_lock = is_lock;
      is_key = is_key;
      signature = unsigned;
    }

unfoldable pub view_change_verify : SigService → ViewChange → Committee → Outcome Bool
unfolding view_change_hash verify
view_change_verify s m c = verify s m.signature (name_of c m.author) (view_change_hash s m)

pub record Halt : Type 0 where
  pub author : NodeId
  pub epoch : Int64
  pub leader : NodeId
  pub block_hash : Digest
  pub signature : Signature

unfoldable pub halt_hash : SigService → Halt → Digest
halt_hash s m =
    (sum256 s
      (add
        (add (add (add new_hasher (append_int m.author)) (append_int m.epoch))
          (append_int m.leader))
        (digest_bytes m.block_hash))
      []).0

unfoldable pub new_halt : SigService → NodeId → NodeId → Digest → Int64 → Halt
unfolding halt_hash
new_halt s author leader block_hash epoch = record m {
  signature = request_signature s (halt_hash s m);
}
  where
    m : Halt
    m = record {
      author = author;
      epoch = epoch;
      leader = leader;
      block_hash = block_hash;
      signature = unsigned;
    }

unfoldable pub halt_verify : SigService → Halt → Committee → Outcome Bool
unfolding halt_hash verify
halt_verify s m c = verify s m.signature (name_of c m.author) (halt_hash s m)
