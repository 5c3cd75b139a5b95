-- ===== src/Smvba/Tests/Counters.antt =====
-- The counters of core/smvba/consensus/aggreator.go and elector.go.
use bft_mvba.Base.{
  ◌≡◌, refl, List, [], ◌∷◌, true, false, has, Option, none, some, ok, arith, Int8, inc,
}
use bft_mvba.Committee.{NodeId, no_node, hight_threshold, size}
use bft_mvba.Crypto.{Bytes, Signature, combine_intact_ts_partial}
use bft_mvba.Smvba.Messages.{
  Finish, Done, Prevote, FinVote, ElectShare, vote_flag_yes, vote_flag_no,
}
use bft_mvba.Smvba.Aggreator.{
  PreVoteAggreator, FinVoteAggreator, new_fin_vote_aggreator, append_fin_vote, append_elect,
  coin_leader, coin_bytes,
}
use bft_mvba.Smvba.Aggreator.FinVotes.{Counts, start, later, said, commit_and_skip}
use bft_mvba.Smvba.Elector.{Elector, add_share_vote}
use bft_mvba.Smvba.Elector.Agreement.{leader_agreement}
use bft_mvba.Fixtures.{four, service}

abbrev unsigned : Signature
unsigned = record { sig = [] }

abbrev fin_vote_of : NodeId → Int8 → FinVote
fin_vote_of a flag = record {
  author = a;
  leader = 0;
  epoch = 0;
  round = 0;
  flag = flag;
  block_hash = 7;
  signature = unsigned;
}

abbrev yes_votes : List FinVote
yes_votes = fin_vote_of 1 vote_flag_yes ∷ fin_vote_of 0 vote_flag_yes ∷ []

abbrev no_votes : List FinVote
no_votes = fin_vote_of 1 vote_flag_no ∷ fin_vote_of 2 vote_flag_no ∷ []

abbrev counted : List FinVote → FinVoteAggreator
counted [] = new_fin_vote_aggreator
counted (m ∷ ms) = (append_fin_vote four (counted ms) m).1

counted-Counts : (ms : List FinVote) → Counts four (counted ms) ms
counted-Counts [] = start
counted-Counts (m ∷ ms) = later m (counted-Counts ms)

-- Nodes 2 and 1 vote both ways; only node 1 may be faulty.
commit_and_skip_example :
    (a : NodeId) × (has (1 ∷ []) a ≡ false)
    × (said true (fin_vote_of 2 vote_flag_yes ∷ yes_votes) a ≡ true)
    × (said false (fin_vote_of 3 vote_flag_no ∷ no_votes) a ≡ true)
commit_and_skip_example =
    commit_and_skip 1 (1 ∷ []) (fin_vote_of 2 vote_flag_yes) (fin_vote_of 3 vote_flag_no)
      (counted-Counts yes_votes) (counted-Counts no_votes) (refl, (refl, (refl, tt)))
      (refl, (refl, (refl, tt))) (omega arith) (omega arith) (refl, (refl, (refl, (refl, tt))))
      (unfold size in refl) (omega arith) (unfold append_fin_vote hight_threshold inc in refl)
      (unfold append_fin_vote hight_threshold inc in refl)

abbrev finish_of : NodeId → Finish
finish_of a = record { author = a; block_hash = 7; epoch = 0; round = 0; signature = unsigned }

abbrev finishes_of : List Finish
finishes_of = finish_of 0 ∷ finish_of 1 ∷ finish_of 1 ∷ finish_of 2 ∷ finish_of 3 ∷ []

abbrev done_of : NodeId → Done
done_of a = record { author = a; epoch = 0; round = 0; signature = unsigned }

abbrev dones_of : List Done
dones_of = done_of 0 ∷ done_of 1 ∷ done_of 2 ∷ []

abbrev prevote_of : NodeId → Int8 → Prevote
prevote_of a flag = record {
  author = a;
  leader = 0;
  epoch = 0;
  round = 0;
  flag = flag;
  block_hash = 0;
  signature = unsigned;
}

abbrev prevotes_of : List Prevote
prevotes_of =
    prevote_of 0 vote_flag_no ∷ prevote_of 1 vote_flag_yes ∷ prevote_of 2 vote_flag_yes ∷ []

-- Two nodes have voted no.
abbrev two_no : PreVoteAggreator
two_no = record { authors = 1 ∷ 0 ∷ []; yes_nums = 0; no_nums = 2; flag = false }

abbrev share_of : NodeId → ElectShare
share_of a = record {
  author = a;
  epoch = 0;
  round = 0;
  sig_share = record { partial_sig = 1 ∷ [] };
}

-- Two shares are there, and the next one completes the quorum.
abbrev nearly : Elector
nearly = record {
  leaders = λ _ _. none;
  elect_aggreators = λ _ _. some (record {
    shares = (share_of 0).sig_share ∷ (share_of 1).sig_share ∷ [];
    authors = 1 ∷ 0 ∷ [];
  });
  sig_service = service;
  committee = four;
}

elects : (add_share_vote nearly (share_of 2)).0 ≡ ok 2
unfolding add_share_vote append_elect hight_threshold combine_intact_ts_partial coin_leader
    coin_bytes size no_node
elects = refl

abbrev coin : Option Bytes
coin = some (0 ∷ 0 ∷ 2 ∷ [])

same_coin : (a b : Bytes) → coin ≡ some a → coin ≡ some b → a ≡ b
same_coin a b h g = cc

leader_agreement_example : ◌≡◌ {A = NodeId} 2 2
leader_agreement_example =
    leader_agreement nearly nearly (share_of 2) (share_of 2) 2 2
      (record { unique = λ xs ys d. same_coin; one_hash = λ b. refl }) refl refl refl elects
      (unfold no_node in omega arith) elects (unfold no_node in omega arith)
