-- ===== src/Mvba/Tests.antt =====
-- The counters and the commitor of core/mvba/consensus/ on concrete inputs.
mod Instances
mod Nodes
mod Votes
use bft_mvba.Base.{
  ℕ, ◌^◌, ◌<◌, ◌≤◌, ◌≡◌, ◌||◌, refl, true, List, [], ◌∷◌, ◌++◌, length, map, has, leb,
  if◌then◌else◌, Option, none, some, Int64, arith,
}
use bft_mvba.Committee.{NodeId, Authority, Committee, hight_threshold}
use bft_mvba.Crypto.{SigService, combine_intact_ts_partial}
use bft_mvba.Committor.Order.{count_up}
use bft_mvba.Smvba.Aggreator.Quorums.{fresh_count}
use bft_mvba.Mvba.Messages.{Uint8, Vote, CoinShare, coin_share_hash, flag_yes, flag_no}
use bft_mvba.Mvba.Counters.{new_vote_aggreator, append_coin, toss}
use bft_mvba.Mvba.Signals.{vote_signals, vote_authors, first_yes, vote_decides_once}
use bft_mvba.Mvba.Coins.{counted_coins, coin_authors_not_distinguished}
use bft_mvba.Mvba.Commits.{epoch_of_entry, new_commitor, run_calls, given_blocks}
use bft_mvba.Mvba.CommitRuns.{mvba_commits_in_order}

abbrev member : Int64 → NodeId × Authority
member i = (i, record { name = "key"; node_id = i; addr = "host" })

abbrev committee : Committee
committee = record { authorities = member 0 ∷ member 1 ∷ member 2 ∷ member 3 ∷ [] }

abbrev vote_of : NodeId → Uint8 → Vote
vote_of a flag = record {
  author = a;
  leader = 0;
  epoch = 0;
  round = 0;
  flag = flag;
  signature = record { sig = [] };
}

abbrev votes : List Vote
votes = vote_of 0 flag_no ∷ vote_of 1 flag_no ∷ vote_of 2 flag_no ∷ vote_of 3 flag_yes ∷ []

vote_decides_once_example : vote_signals committee new_vote_aggreator votes ≡ (
    if first_yes [] votes || leb (hight_threshold committee) (fresh_count [] (vote_authors votes))
    then 1
    else 0)
vote_decides_once_example = vote_decides_once committee votes

-- Blocks are numbers; the block of epoch 1 comes first, and that of epoch 0 after its leader.
abbrev calls : List (Int64 × NodeId × Option ℕ)
calls = (1, 2, some 11) ∷ (0, 3, none) ∷ (0, 3, some 10) ∷ []

mvba_commits_in_order_example :
    (map epoch_of_entry (run_calls new_commitor calls).0
      ≡ count_up 0 (length (run_calls new_commitor calls).0))
    × ((n : ℕ)
        → n ≤ 2 ^ 62
        → ((e : ℕ) → e < n → has (map epoch_of_entry (given_blocks calls)) e ≡ true)
        → n ≤ length (run_calls new_commitor calls).0)
mvba_commits_in_order_example = mvba_commits_in_order calls (omega arith)
