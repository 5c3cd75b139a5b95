-- ===== src/Mvba/Messages/Broadcasts.antt =====
-- core/mvba/consensus/message.go: the messages of the broadcasts, and the shares that elect the leaders.
use bft_mvba.Base.{Bool, List, [], ◌∷◌, Option, Outcome, ok, Int64}
use bft_mvba.Committee.{NodeId, Committee, name_of}
use bft_mvba.Crypto.{
  Digest, SigService, Signature, SignatureShare, new_hasher, add, sum256, le_bytes, verify,
  share_verify, request_signature, request_ts_sugnature,
}
use bft_mvba.Mvba.Messages.Blocks.{Uint8, unsigned, unshared}

-- A `[]bool` by what it shares: the slice in which the core of the node itself records the finished
-- broadcasts of an epoch, or a slice of its own.
pub data Slice : Type 0 where
  shared : (epoch : Int64) → Slice
  own : List Bool → Slice

pub record Commitment : Type 0 where
  pub author : NodeId
  pub c : Option Slice
  pub epoch : Int64
  pub signature : Signature

unfoldable pub commitment_hash : SigService → Commitment → Digest
unfolding le_bytes
commitment_hash s m =
    (sum256 s (add (add new_hasher (le_bytes 8 m.author)) (le_bytes 8 m.epoch)) []).0

unfoldable pub new_commitment : SigService → NodeId → Option Slice → Int64 → Commitment
unfolding commitment_hash
new_commitment s author c epoch = record m { signature = request_signature s (commitment_hash s m) }
  where
    m : Commitment
    m = record { author = author; c = c; epoch = epoch; signature = unsigned }

unfoldable pub commitment_verify : SigService → Commitment → Committee → Outcome Bool
unfolding commitment_hash verify
commitment_verify s m c = verify s m.signature (name_of c m.author) (commitment_hash s m)

pub record Ready : Type 0 where
  pub author : NodeId
  pub proposer : NodeId
  pub epoch : Int64
  pub tag : Uint8
  pub signature : Signature

unfoldable pub ready_hash : SigService → Ready → Digest
unfolding le_bytes
ready_hash s m =
    (sum256 s
      (add
        (add (add (add new_hasher (le_bytes 8 m.author)) (le_bytes 8 m.proposer))
          (le_bytes 8 m.epoch))
        (m.tag ∷ []))
      []).0

unfoldable pub new_ready : SigService → NodeId → NodeId → Int64 → Uint8 → Ready
unfolding ready_hash
new_ready s author proposer epoch tag = record m {
  signature = request_signature s (ready_hash s m);
}
  where
    m : Ready
    m = record {
      author = author;
      proposer = proposer;
      epoch = epoch;
      tag = tag;
      signature = unsigned;
    }

unfoldable pub ready_verify : SigService → Ready → Committee → Outcome Bool
unfolding ready_hash verify
ready_verify s m c = verify s m.signature (name_of c m.author) (ready_hash s m)

pub record Final : Type 0 where
  pub author : NodeId
  pub epoch : Int64
  pub tag : Uint8
  pub signature : Signature

unfoldable pub final_hash : SigService → Final → Digest
unfolding le_bytes
final_hash s m =
    (sum256 s (add (add (add new_hasher (le_bytes 8 m.author)) (le_bytes 8 m.epoch)) (m.tag ∷ []))
      []).0

unfoldable pub new_final : SigService → NodeId → Int64 → Uint8 → Final
unfolding final_hash
new_final s author epoch tag = record m { signature = request_signature s (final_hash s m) }
  where
    m : Final
    m = record { author = author; epoch = epoch; tag = tag; signature = unsigned }

unfoldable pub final_verify : SigService → Final → Committee → Outcome Bool
unfolding final_hash verify
final_verify s m c = verify s m.signature (name_of c m.author) (final_hash s m)

pub record ElectShare : Type 0 where
  pub author : NodeId
  pub epoch : Int64
  pub share : SignatureShare

unfoldable pub elect_share_hash : SigService → ElectShare → Digest
unfolding le_bytes
elect_share_hash s m = (sum256 s (add new_hasher (le_bytes 8 m.epoch)) []).0

unfoldable pub new_elect_share : SigService → NodeId → Int64 → ElectShare
unfolding elect_share_hash
new_elect_share s author epoch = record m { share = request_ts_sugnature s (elect_share_hash s m) }
  where
    m : ElectShare
    m = record { author = author; epoch = epoch; share = unshared }

unfoldable pub elect_share_verify : SigService → ElectShare → Committee → Outcome Bool
unfolding elect_share_hash share_verify
elect_share_verify s m c = ok (share_verify m.share (elect_share_hash s m))
