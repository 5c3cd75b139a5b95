-- ===== src/Smvba/Elector/Agreement.antt =====
-- What core/smvba/consensus/elector.go elects: a member, the same at every node, or nobody ever.
use bft_mvba.Base.{
  ◌≡◌, ◌≢◌, refl, sym, ◌∙◌, List, [], ◌∷◌, ◌++◌, Option, none, some, ok, arith, or_new,
}
use bft_mvba.Committee.{NodeId, no_node, Committee}
use bft_mvba.Crypto.{Bytes, Digest, SigService, SignatureShare, combine_intact_ts_partial, partials}
use bft_mvba.Smvba.Messages.{ElectShare}
use bft_mvba.Smvba.Signing.{elect_share_hash}
use bft_mvba.Smvba.Aggreator.{ElectAggreator, new_elect_aggreator, append_elect, coin_leader}
use bft_mvba.Smvba.Elector.Defs.{Elector, add_share_vote}

-- What is documented of threshold signatures: whichever shares are combined, a digest has one
-- signature under the committee's key.
pub record HasUniqueSignatures (s t : SigService) : Type 0 where
  pub unique :
      (xs ys : List Bytes) (d : Digest) (a b : Bytes)
      → s.tbls_recover xs d ≡ some a
      → t.tbls_recover ys d ≡ some b
      → a ≡ b
  pub one_hash : (b : Bytes) → s.sha256 b ≡ t.sha256 b

-- The counter's shares with the next one.
abbrev shares_with : ElectAggreator → ElectShare → List SignatureShare
shares_with item m = item.shares ++ m.sig_share ∷ []

combined :
    (c : Committee) (s : SigService) (item : ElectAggreator) (m : ElectShare) (l : NodeId)
    → (append_elect c s item m).0 ≡ ok l
    → l ≢ no_node
    → coin_leader c (combine_intact_ts_partial s (shares_with item m) (elect_share_hash s m)) ≡ ok l
unfolding append_elect
combined c s item m l h some_leader = ground arith

counter_of : Elector → ElectShare → ElectAggreator
counter_of e m = or_new (e.elect_aggreators m.epoch m.round) new_elect_aggreator

elected :
    (e : Elector) (m : ElectShare) (l : NodeId)
    → (add_share_vote e m).0 ≡ ok l
    → l ≢ no_node
    → (append_elect e.committee e.sig_service (counter_of e m) m).0 ≡ ok l
unfolding add_share_vote counter_of
elected e m l h some_leader = ground arith

coin_known :
    (c : Committee) (r : Option Bytes) (l : NodeId)
    → coin_leader c r ≡ ok l
    → (coin : Bytes) × (r ≡ some coin)
unfolding coin_leader
coin_known c none l h = cc
coin_known c (some coin) l h = (coin, refl)

-- Two nodes that elect a leader of the same epoch and round elect the same one, whichever shares
-- each of them combined, if a digest has one signature under the committee key.
pub leader_agreement :
    (e f : Elector) (m n : ElectShare) (k l : NodeId)
    → HasUniqueSignatures e.sig_service f.sig_service
    → e.committee ≡ f.committee
    → m.epoch ≡ n.epoch
    → m.round ≡ n.round
    → (add_share_vote e m).0 ≡ ok k
    → k ≢ no_node
    → (add_share_vote f n).0 ≡ ok l
    → l ≢ no_node
    → k ≡ l
leader_agreement e f m n k l u same_c same_e same_r hm nm hn nn =
    let xs = shares_with (counter_of e m) m in
    let ys = shares_with (counter_of f n) n in
    let cm = combined e.committee e.sig_service (counter_of e m) m k (elected e m k hm nm) nm in
    let cn = combined f.committee f.sig_service (counter_of f n) n l (elected f n l hn nn) nn in
    let (a, ea) = coin_known e.committee _ k cm in
    let (b, eb) = coin_known f.committee _ l cn in
    let same_hash : (elect_share_hash e.sig_service m ≡ elect_share_hash f.sig_service n) =
      unfold elect_share_hash in rw (same_e, same_r) (u.one_hash _) in
    let same : (a ≡ b) =
      unfold combine_intact_ts_partial in
      u.unique (partials xs) (partials ys) (elect_share_hash f.sig_service n) a b
        (rw same_hash at ea) eb in
    ok_unique (sym (rw ea at cm) ∙ rw (same, same_c) (rw eb at cn))
  where
    ok_unique : {i j : NodeId} → ok i ≡ ok j → i ≡ j
    ok_unique h = cc
