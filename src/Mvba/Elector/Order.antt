-- ===== src/Mvba/Elector/Order.antt =====
-- core/mvba/consensus/elector.go: the order of the leaders of an epoch.
use native.Mathlib.Decide.{dec_lt}
use bft_mvba.Base.{
  get_elem-inside, get_elem-outside, zero, suc, ◌≤◌, Option-cases, inl, inr, ℕ, ◌+◌, ◌<◌, ◌≡◌, refl,
  sym, ◌∙◌, ap, List, [], ◌∷◌, ◌++◌, length, count, get_elem?, Option, some, true, ok, panic, Int64,
  arith,
}
use bft_mvba.Committee.{NodeId, Committee, size}
use bft_mvba.Crypto.{Bytes, SignatureShare, combine_intact_ts_partial, partials}
use bft_mvba.Committor.Order.{count_up}
use bft_mvba.Smvba.Elector.Agreement.{HasUniqueSignatures}
use bft_mvba.Mvba.Messages.{ElectShare, elect_share_hash}
use bft_mvba.Mvba.Counters.{coin_seed, random_len}
use bft_mvba.Mvba.Elector.Defs.{Shuffle, Elector, add_seed, add_elect_share, leader, in_order}

-- What is documented of Go's shuffle: it moves the entries of a list about.
pub record Shuffles (shuffle : Shuffle) : Type 0 where
  pub same : (seed : Int64) (xs : List NodeId) (a : NodeId) → count a (shuffle seed xs) ≡ count a xs
  pub same_length : (seed : Int64) (xs : List NodeId) → length (shuffle seed xs) ≡ length xs

abbrev shares_with : Elector → ElectShare → List SignatureShare
shares_with e m = e.elect_shares m.epoch ++ m.share ∷ []

-- The order that the combined shares of an epoch stand for.
abbrev order_of : Shuffle → Committee → Bytes → List NodeId
order_of shuffle c bytes = shuffle (coin_seed random_len 0 bytes) (count_up 0 (size c))

combination : Elector → ElectShare → Option Bytes
combination e m =
    combine_intact_ts_partial e.sig_service (shares_with e m) (elect_share_hash e.sig_service m)

elected_order :
    (shuffle : Shuffle) (e : Elector) (m : ElectShare)
    → (add_elect_share shuffle e m).0 ≡ ok true
    → (bytes : Bytes) × (combination e m ≡ some bytes)
      × ((add_elect_share shuffle e m).1.rand_gen m.epoch
          ≡ some (order_of shuffle e.committee bytes))
unfolding add_elect_share add_seed combination
elected_order shuffle e m h = elim (Option-cases (combination e m)) [
  | inl lost ↦ absurd (unfold combination in ground (arith, lost))
  | inr (bytes, there) ↦ (bytes, there, unfold combination in ground (arith, there))
]

leader-in_order :
    (e : Elector) (epoch round : Int64) (order : List NodeId)
    → e.rand_gen epoch ≡ some order
    → leader e epoch round ≡ in_order order round
unfolding leader
leader-in_order e epoch round order known = ground (arith, known)

-- Two nodes with one committee, and the same shuffle, that elect the leaders of one epoch of MVBA
-- have the same leader in every round, whichever shares each of them combined, if a digest has
-- one signature under the committee key and both hash alike.
pub order_agreement :
    (shuffle : Shuffle) (e f : Elector) (m n : ElectShare)
    → HasUniqueSignatures e.sig_service f.sig_service
    → e.committee ≡ f.committee
    → m.epoch ≡ n.epoch
    → (add_elect_share shuffle e m).0 ≡ ok true
    → (add_elect_share shuffle f n).0 ≡ ok true
    → (round : Int64)
    → leader (add_elect_share shuffle e m).1 m.epoch round
      ≡ leader (add_elect_share shuffle f n).1 n.epoch round
order_agreement shuffle e f m n u same_c same_e hm hn round =
    let (a, ea, oa) = elected_order shuffle e m hm in
    let (b, eb, ob) = elected_order shuffle f n hn in
    let same_hash : (elect_share_hash e.sig_service m ≡ elect_share_hash f.sig_service n) =
      unfold elect_share_hash in rw same_e (u.one_hash _) in
    let same : (a ≡ b) =
      unfold combination combine_intact_ts_partial in
      u.unique (partials (shares_with e m)) (partials (shares_with f n))
        (elect_share_hash f.sig_service n) a b (rw same_hash at ea) eb in
    leader-in_order (add_elect_share shuffle e m).1 m.epoch round (order_of shuffle e.committee a)
      oa
    ∙ ap (λ o. in_order o round) (rw (same, same_c) refl)
    ∙ sym (
        leader-in_order (add_elect_share shuffle f n).1 n.epoch round
          (order_of shuffle f.committee b) ob)

count-below : (a k n : ℕ) → a < k → count a (count_up k n) ≡ 0
count-below a k zero h = refl
count-below a k (suc n) h = ground (arith, count-below a (suc k) n (omega arith))

count-count_up : (a k n : ℕ) → k ≤ a → a < k + n → count a (count_up k n) ≡ 1
count-count_up a k zero low high = absurd (omega arith)
count-count_up a k (suc n) low high = elim (dec_lt k a) [
  | yes later ↦ ground (arith, count-count_up a (suc k) n (omega arith) (omega arith))
  | no here ↦ ground (arith, count-below a (suc k) n (omega arith))
]

length-count_up : (k n : ℕ) → length (count_up k n) ≡ n
length-count_up k zero = refl
length-count_up k (suc n) = omega (arith, length-count_up (suc k) n)

-- Where the shuffle only moves entries about, once an epoch has its leaders, every number below
-- the size of the committee is the leader of exactly one of as many rounds, each of these rounds
-- has a leader, and to ask for the leader of a later round panics.
pub each_member_leads_once :
    (shuffle : Shuffle) (e : Elector) (m : ElectShare)
    → Shuffles shuffle
    → (add_elect_share shuffle e m).0 ≡ ok true
    → (order : List NodeId) × ((a : NodeId) → a < size e.committee → count a order ≡ 1)
      × ((r : Int64)
          → r < size e.committee
          → (a : NodeId) × (get_elem? order r ≡ some a)
            × (leader (add_elect_share shuffle e m).1 m.epoch r ≡ ok a))
      × ((r : Int64)
          → size e.committee ≤ r
          → leader (add_elect_share shuffle e m).1 m.epoch r ≡ panic)
each_member_leads_once shuffle e m s h =
    let (bytes, _, known) = elected_order shuffle e m h in
    let n = size e.committee in
    let seed = coin_seed random_len 0 bytes in
    let order = order_of shuffle e.committee bytes in
    let reads : ((r : Int64)
        → leader (add_elect_share shuffle e m).1 m.epoch r ≡ in_order order r) =
      λ r. leader-in_order (add_elect_share shuffle e m).1 m.epoch r order known in
    let long : (length order ≡ n) = s.same_length seed (count_up 0 n) ∙ length-count_up 0 n in
    (
      order,
      λ a small. s.same seed (count_up 0 n) a ∙ count-count_up a 0 n (omega arith) (omega arith),
      λ r inside.
          let (a, there) = get_elem-inside order r (omega (arith, long)) in
          (a, there, reads r ∙ rw (in_order, there) refl),
      λ r outside. reads r ∙ rw (in_order, get_elem-outside order r (omega (arith, long))) refl,
    )
