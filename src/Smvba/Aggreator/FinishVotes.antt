-- ===== src/Smvba/Aggreator/FinishVotes.antt =====
-- core/smvba/consensus/aggreator.go, `AddFinishVote`: the counter that the first vote is lost in.
use bft_mvba.Base.{
  ℕ, ◌+◌, ◌<◌, ◌≡◌, refl, List, [], ◌∷◌, none, some, if◌then◌else◌, leb, arith, Int64, All,
}
use bft_mvba.Committee.{hight_threshold}
use bft_mvba.Smvba.Messages.{Finish}
use bft_mvba.Smvba.Aggreator.Defs.{
  Aggreator, FinishAggreator, new_finish_aggreator, append_finish, add_finish_vote,
}
use bft_mvba.Smvba.Aggreator.Quorums.{
  finish_signals, finish_signals_once, finish_authors, fresh_count, is_signal,
}

-- The votes are all of one epoch and one round.
abbrev pub OfRound : Int64 → Int64 → Finish → Type 0
OfRound e r m = (m.epoch ≡ e) × (m.round ≡ r)

-- The signals that the aggregator gives in a run of votes.
unfoldable pub round_signals : Aggreator → List Finish → ℕ
round_signals a [] = 0
round_signals a (m ∷ ms) =
    is_signal (add_finish_vote a m).0 + round_signals (add_finish_vote a m).1 ms

round_signals-known :
    (a : Aggreator) (e r : Int64) (f : FinishAggreator) (ms : List Finish)
    → a.finish_aggreator e r ≡ some f
    → All (OfRound e r) ms
    → round_signals a ms ≡ (finish_signals a.committee f ms).0
unfolding round_signals finish_signals add_finish_vote
round_signals-known a e r f [] known of = refl
round_signals-known a e r f (m ∷ ms) known of =
    ground
      (arith, round_signals-known (add_finish_vote a m).1 e r (append_finish a.committee f m).1 ms)

-- Of a round that the aggregator does not know yet, with a threshold above one, the first
-- `Finish` vote is not counted: a run of votes of that round signals once if the votes behind the
-- first come from `HightThreshold` different authors, and not at all otherwise.
pub first_finish_lost :
    (a : Aggreator) (e r : Int64) (m : Finish) (ms : List Finish)
    → a.finish_aggreator e r ≡ none
    → All (OfRound e r) (m ∷ ms)
    → 1 < hight_threshold a.committee
    → round_signals a (m ∷ ms)
      ≡ (if leb (hight_threshold a.committee) (fresh_count [] (finish_authors ms)) then 1 else 0)
unfolding round_signals add_finish_vote append_finish
first_finish_lost a e r m ms unknown of large = ground (
  arith,
  round_signals-known (add_finish_vote a m).1 e r new_finish_aggreator ms,
  finish_signals_once a.committee ms,
)
