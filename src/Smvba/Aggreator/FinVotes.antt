-- ===== src/Smvba/Aggreator/FinVotes.antt =====
-- core/smvba/consensus/aggreator.go: the final votes of a round, what a decision says of the votes
-- that were counted, and how the decisions of two nodes bear on one another.
use bft_mvba.Base.{
  ℕ, ◌+◌, ◌^◌, ◌*◌, ◌≤◌, ◌<◌, ◌≡◌, ◌≢◌, refl, Bool, true, false, not, ◌&&◌, ◌||◌, List, [], ◌∷◌,
  length, Outcome, ok, if◌then◌else◌, ◌==◌, has, IsSetList, All, Int8, arith, inc,
}
use bft_mvba.Committee.{NodeId, Committee, size, keys}
use bft_mvba.Committee.Quorum.{IsQuorum, IsSubset, quorum_intersection}
use bft_mvba.Smvba.Messages.{FinVote, vote_flag_yes}
use bft_mvba.Smvba.Aggreator.Defs.{
  FinVoteAggreator, new_fin_vote_aggreator, append_fin_vote, action_no, action_commit, action_none,
}

-- The counter of a round after the messages that came, the newest first.
pub data Counts (c : Committee) : FinVoteAggreator → List FinVote → Type 0 where
  start : Counts c new_fin_vote_aggreator []
  later :
      {f : FinVoteAggreator} {ms : List FinVote} (m : FinVote)
      → Counts c f ms
      → Counts c (append_fin_vote c f m).1 (m ∷ ms)

-- Did the author send a vote of this kind?
abbrev pub said : Bool → List FinVote → NodeId → Bool
said yes_kind [] a = false
said yes_kind (m ∷ ms) a =
    m.author == a && (if m.flag == vote_flag_yes then yes_kind else not yes_kind)
    || said yes_kind ms a

-- The counts add up, and a count of zero says that every counted author voted the other way.
record Inv (c : Committee) (f : FinVoteAggreator) (ms : List FinVote) : Type 0 where
  distinct : IsSetList f.authors
  total : f.yes_nums + f.no_nums ≡ length f.authors
  few : length f.authors ≤ length ms
  members : IsSubset f.authors (keys c.authorities)
  no_no : f.no_nums ≡ 0 → (a : NodeId) → has f.authors a ≡ true → said true ms a ≡ true
  no_yes : f.yes_nums ≡ 0 → (a : NodeId) → has f.authors a ≡ true → said false ms a ≡ true

abbrev pub IsMember : Committee → FinVote → Type 0
IsMember c m = has (keys c.authorities) m.author ≡ true

append-Inv :
    (c : Committee) (f : FinVoteAggreator) (ms : List FinVote) (m : FinVote)
    → length ms < 2 ^ 62
    → IsMember c m
    → Inv c f ms
    → Inv c (append_fin_vote c f m).1 (m ∷ ms)
unfolding append_fin_vote inc
append-Inv c f ms m small mem v = record {
  distinct = ground arith;
  total = ground arith;
  few = ground arith;
  members = λ a h. ground (arith, v.members a);
  no_no =
      λ z a h. ground (arith, λ (p : f.no_nums ≡ 0) (q : has f.authors a ≡ true). v.no_no p a q);
  no_yes =
      λ z a h. ground (arith, λ (p : f.yes_nums ≡ 0) (q : has f.authors a ≡ true). v.no_yes p a q);
}

Counts-Inv :
    {c : Committee} {f : FinVoteAggreator} {ms : List FinVote}
    → Counts c f ms
    → All (IsMember c) ms
    → length ms < 2 ^ 62
    → Inv c f ms
Counts-Inv start mem small = record {
  distinct = tt;
  total = refl;
  few = omega arith;
  members = λ a h. cc;
  no_no = λ z a h. cc;
  no_yes = λ z a h. cc;
}
Counts-Inv {c} (later {f} {ms} m r) mem small =
    append-Inv c f ms m (omega arith) mem.0 (Counts-Inv r mem.1 (omega arith))

-- The action that the next message draws.
abbrev pub action : Committee → FinVoteAggreator → FinVote → Outcome Int8
action c f m = (append_fin_vote c f m).0

decided-IsQuorum :
    (c : Committee) (f : FinVoteAggreator) (ms : List FinVote) (m : FinVote) (x : Int8)
    → Inv c f ms
    → Inv c (append_fin_vote c f m).1 (m ∷ ms)
    → length ms < 2 ^ 62
    → action c f m ≡ ok x
    → x ≢ action_none
    → IsQuorum c (append_fin_vote c f m).1.authors
decided-IsQuorum c f ms m x v v' small e some_action = record {
  distinct = v'.distinct;
  members = v'.members;
  enough = unfold append_fin_vote inc in ground arith;
}

commit_unanimous :
    (c : Committee) (f : FinVoteAggreator) (ms : List FinVote) (m : FinVote)
    → Inv c f ms
    → length ms < 2 ^ 62
    → action c f m ≡ ok action_commit
    → (append_fin_vote c f m).1.no_nums ≡ 0
unfolding append_fin_vote inc
commit_unanimous c f ms m v small e = ground arith

skip_unanimous :
    (c : Committee) (f : FinVoteAggreator) (ms : List FinVote) (m : FinVote)
    → Inv c f ms
    → length ms < 2 ^ 62
    → action c f m ≡ ok action_no
    → (append_fin_vote c f m).1.yes_nums ≡ 0
unfolding append_fin_vote inc
skip_unanimous c f ms m v small e = ground arith

-- In a committee of 3f + 1 with at most f faulty, if one counter decides to commit and another to
-- skip, on fewer than 2 ^ 61 votes before the deciding one that all come from members, then some
-- member that is not faulty voted yes to the one and no to the other.
pub commit_and_skip :
    {c : Committee} {f g : FinVoteAggreator} {ms ns : List FinVote}
    → (k : ℕ) (faulty : List NodeId) (m n : FinVote) → Counts c f ms
    → Counts c g ns
    → All (IsMember c) (m ∷ ms)
    → All (IsMember c) (n ∷ ns)
    → length ms < 2 ^ 61
    → length ns < 2 ^ 61
    → IsSetList (keys c.authorities)
    → size c ≡ 3 * k + 1
    → length faulty ≤ k
    → action c f m ≡ ok action_commit
    → action c g n ≡ ok action_no
    → (a : NodeId) × (has faulty a ≡ false)
      × (said true (m ∷ ms) a ≡ true)
      × (said false (n ∷ ns) a ≡ true)
commit_and_skip {c} {f} {g} {ms} {ns} k faulty m n rf rg mem_m mem_n small_m small_n s sz few em
      en =
    let vf = Counts-Inv rf mem_m.1 (omega arith) in
    let vg = Counts-Inv rg mem_n.1 (omega arith) in
    let vf' = append-Inv c f ms m (omega arith) mem_m.0 vf in
    let vg' = append-Inv c g ns n (omega arith) mem_n.0 vg in
    let (a, in_f, in_g, honest) =
      quorum_intersection c k (append_fin_vote c f m).1.authors (append_fin_vote c g n).1.authors
        faulty s sz few
        (decided-IsQuorum c f ms m action_commit vf vf' (omega arith) em (omega arith))
        (decided-IsQuorum c g ns n action_no vg vg' (omega arith) en (omega arith)) in
    (
      a,
      honest,
      vf'.no_no (commit_unanimous c f ms m vf (omega arith) em) a in_f,
      vg'.no_yes (skip_unanimous c g ns n vg (omega arith) en) a in_g,
    )
