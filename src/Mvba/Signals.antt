-- ===== src/Mvba/Signals.antt =====
-- core/mvba/consensus/aggreator.go, `VoteAggreator` over whole runs of votes.
use bft_mvba.Base.{
  ℕ, ◌+◌, ◌<◌, ◌≡◌, refl, Bool, true, false, ◌||◌, List, [], ◌∷◌, length, Outcome, ok, err, panic,
  if◌then◌else◌, ◌==◌, leb, has, arith,
}
use bft_mvba.Committee.{NodeId, Committee, hight_threshold}
use bft_mvba.Smvba.Aggreator.Quorums.{fresh_count}
use bft_mvba.Mvba.Messages.{Uint8, Vote, flag_yes}
use bft_mvba.Mvba.Counters.{VoteAggreator, new_vote_aggreator, append_vote, action_no}

abbrev pub vote_authors : List Vote → List NodeId
vote_authors [] = []
vote_authors (m ∷ ms) = m.author ∷ vote_authors ms

-- Is some author's first vote for yes?
abbrev pub first_yes : List NodeId → List Vote → Bool
first_yes seen [] = false
first_yes seen (m ∷ ms) =
    if has seen m.author
    then first_yes seen ms
    else m.flag == flag_yes || first_yes (m.author ∷ seen) ms

abbrev pub is_signal : Outcome Uint8 → ℕ
is_signal (ok r) = if r == action_no then 0 else 1
is_signal (err _) = 0
is_signal panic = 0

-- How often a run has the counter decide on a vote.
unfoldable pub vote_signals : Committee → VoteAggreator → List Vote → ℕ
vote_signals c v [] = 0
vote_signals c v (m ∷ ms) =
    is_signal (append_vote c v m).0 + vote_signals c (append_vote c v m).1 ms

raised-vote_signals :
    (c : Committee) (v : VoteAggreator) (ms : List Vote) → v.flag ≡ true → vote_signals c v ms ≡ 0
unfolding vote_signals append_vote
raised-vote_signals c v [] raised = refl
raised-vote_signals c v (m ∷ ms) raised =
    ground (arith, raised-vote_signals c (append_vote c v m).1 ms)

lowered-vote_signals :
    (c : Committee) (v : VoteAggreator) (ms : List Vote)
    → v.flag ≡ false
    → length v.used < hight_threshold c
    → vote_signals c v ms ≡ (
        if first_yes v.used ms
          || leb (hight_threshold c) (length v.used + fresh_count v.used (vote_authors ms))
        then 1
        else 0)
unfolding vote_signals append_vote
lowered-vote_signals c v [] lowered few = ground arith
lowered-vote_signals c v (m ∷ ms) lowered few = ground (
  arith,
  lowered-vote_signals c (append_vote c v m).1 ms,
  raised-vote_signals c (append_vote c v m).1 ms,
)

-- A counter of the votes of MVBA that starts empty decides on the vote that its agreement starts
-- from exactly once if the first vote of some author is for yes or `HightThreshold` different
-- authors vote, and never otherwise.
pub vote_decides_once :
    (c : Committee) (ms : List Vote)
    → vote_signals c new_vote_aggreator ms ≡ (
        if first_yes [] ms || leb (hight_threshold c) (fresh_count [] (vote_authors ms))
        then 1
        else 0)
vote_decides_once c ms = ground (
  arith,
  lowered-vote_signals c new_vote_aggreator ms refl (unfold hight_threshold in omega arith),
)
