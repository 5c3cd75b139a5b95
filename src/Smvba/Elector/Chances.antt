-- ===== src/Smvba/Elector/Chances.antt =====
-- core/smvba/consensus/elector.go over runs of shares: a round has one chance to elect.
use bft_mvba.Base.{
  ℕ, ◌≤◌, ◌<◌, ◌≡◌, ◌≢◌, refl, ◌∙◌, false, ◌&&◌, List, [], ◌∷◌, ◌++◌, length, length-append,
  Outcome, ok, err, panic, ◌==◌, arith, Int64, All, or_new,
}
use bft_mvba.Committee.{NodeId, no_node, Committee, hight_threshold, size}
use bft_mvba.Crypto.{SigService, combine_intact_ts_partial}
use bft_mvba.Smvba.Messages.{ElectShare}
use bft_mvba.Smvba.Signing.{elect_share_hash}
use bft_mvba.Smvba.Aggreator.{ElectAggreator, new_elect_aggreator, append_elect}
use bft_mvba.Smvba.Aggreator.Leaders.{coin_leader-IsLeader}
use bft_mvba.Smvba.Elector.Defs.{Elector, note_leader, with_aggreator, leader, add_share_vote}

append_elect-IsLeader :
    (c : Committee) (s : SigService) (item : ElectAggreator) (m : ElectShare) (l : NodeId)
    → (append_elect c s item m).0 ≡ ok l
    → l ≢ no_node
    → l < size c
unfolding append_elect
append_elect-IsLeader c s item m l h some_leader = ground (
  arith,
  coin_leader-IsLeader c
      (combine_intact_ts_partial s (item.shares ++ m.sig_share ∷ []) (elect_share_hash s m)),
)

-- A leader that a share elects is a place in the committee; it is recorded for the epoch and
-- round of the share, and the other rounds keep their leaders.
pub elected_member :
    (e : Elector) (m : ElectShare) (l : NodeId)
    → (add_share_vote e m).0 ≡ ok l
    → l ≢ no_node
    → (l < size e.committee)
      × (leader (add_share_vote e m).1 m.epoch m.round ≡ l)
      × ((i j : Int64)
          → (m.epoch == i && m.round == j) ≡ false
          → leader (add_share_vote e m).1 i j ≡ leader e i j)
unfolding add_share_vote leader
elected_member e m l h some_leader =
    let item = or_new (e.elect_aggreators m.epoch m.round) new_elect_aggreator in
    let inside = append_elect-IsLeader e.committee e.sig_service item m l in
    (ground (arith, inside), ground arith, λ i j ne. ground arith)

-- The shares of one epoch and round that the elector holds.
abbrev pub held : Elector → Int64 → Int64 → ℕ
held e i j = length (or_new (e.elect_aggreators i j) new_elect_aggreator).shares

abbrev pub OfRound : Int64 → Int64 → ElectShare → Type 0
OfRound i j m = (m.epoch ≡ i) × (m.round ≡ j)

append_elect_full :
    (c : Committee) (s : SigService) (item : ElectAggreator) (m : ElectShare) (l : NodeId)
    → hight_threshold c ≤ length item.shares
    → (append_elect c s item m).0 ≡ ok l
    → l ≡ no_node
unfolding append_elect
append_elect_full c s item m l full h = ground (arith, length-append item.shares (m.sig_share ∷ []))

append_elect-length :
    (c : Committee) (s : SigService) (item : ElectAggreator) (m : ElectShare)
    → length item.shares ≤ length (append_elect c s item m).1.shares
unfolding append_elect
append_elect-length c s item m = ground (arith, length-append item.shares (m.sig_share ∷ []))

-- The elector after a run of shares.
unfoldable pub add_shares : Elector → List ElectShare → Elector
add_shares e [] = e
add_shares e (m ∷ ms) = add_shares (add_share_vote e m).1 ms

note_leader_quiet :
    (e : Elector) (m : ElectShare) (r : Outcome NodeId)
    → ((l : NodeId) → r ≡ ok l → l ≡ no_node)
    → (note_leader e m r).1.leaders ≡ e.leaders
note_leader_quiet e m (ok l) h = ground (arith, h l refl)
note_leader_quiet e m (err _) h = refl
note_leader_quiet e m panic h = refl

share_kept :
    (e : Elector) (i j : Int64) (m : ElectShare)
    → OfRound i j m
    → hight_threshold e.committee ≤ held e i j
    → (hight_threshold (add_share_vote e m).1.committee ≤ held (add_share_vote e m).1 i j)
      × (leader (add_share_vote e m).1 i j ≡ leader e i j)
unfolding add_share_vote leader
share_kept e i j m of full =
    let item = or_new (e.elect_aggreators m.epoch m.round) new_elect_aggreator in
    (
      ground (arith, append_elect-length e.committee e.sig_service item m),
      rw (
          note_leader_quiet (with_aggreator e m (append_elect e.committee e.sig_service item m).1) m
            (append_elect e.committee e.sig_service item m).0
            (λ l. append_elect_full e.committee e.sig_service item m l (ground arith))),
    )

-- Once a round holds `HightThreshold` shares, no further share of that round changes its leader.
pub leader-add_shares :
    (e : Elector) (i j : Int64) (ms : List ElectShare)
    → All (OfRound i j) ms
    → hight_threshold e.committee ≤ held e i j
    → leader (add_shares e ms) i j ≡ leader e i j
unfolding add_shares
leader-add_shares e i j [] of full = refl
leader-add_shares e i j (m ∷ ms) of full =
    let kept = share_kept e i j m of.0 full in
    leader-add_shares (add_share_vote e m).1 i j ms of.1 kept.0 ∙ kept.1
