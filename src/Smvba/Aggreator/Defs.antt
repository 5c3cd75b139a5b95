-- ===== src/Smvba/Aggreator/Defs.antt =====
-- core/smvba/consensus/aggreator.go. Each `Append` and each `Add…Vote` gives what it returns and the
-- counter as it leaves it, on the error path too. The maps of the aggregator read the counter of
-- an epoch and a round.
use bft_mvba.Base.{
  ℕ, zero, suc, ◌+◌, ◌%◌, ◌*◌, ◌^◌, Bool, true, false, not, ◌&&◌, List, [], ◌∷◌, ◌++◌, length,
  Option, none, some, Outcome, ok, err, panic, Error, err_one_more_message, err_other,
  if◌then◌else◌, ◌==◌, has, Int8, Int64, inc, slt, put2, or_new,
}
use bft_mvba.Committee.{NodeId, no_node, Committee, hight_threshold, low_threshold, size}
use bft_mvba.Crypto.{Bytes, SigService, SignatureShare, combine_intact_ts_partial}
use bft_mvba.Smvba.Messages.{
  Finish, Done, ElectShare, Prevote, FinVote, vote_flag_yes, vote_flag_no,
}
use bft_mvba.Smvba.Signing.{Messgae, msg_type, elect_share_hash}

-- The error of a second message of one author.
abbrev pub one_more : ℕ → Int64 → Int64 → NodeId → Error
one_more typ epoch round author = err_one_more_message typ epoch round author

pub record FinishAggreator : Type 0 where
  pub authors : List NodeId

abbrev pub new_finish_aggreator : FinishAggreator
new_finish_aggreator = record { authors = [] }

unfoldable pub append_finish : Committee → FinishAggreator → Finish → Outcome Bool × FinishAggreator
unfolding msg_type
append_finish c f m =
    if has f.authors m.author
    then (err (one_more (msg_type (Messgae.finish m)) m.epoch m.round m.author), f)
    else (let f' = record f { authors = m.author ∷ f.authors } in
        if length f'.authors == hight_threshold c then (ok true, f') else (ok false, f'))

abbrev pub done_low_flag : Int8
done_low_flag = 0

abbrev pub done_high_flag : Int8
done_high_flag = 1

abbrev pub done_none_flag : Int8
done_none_flag = 2

pub record DoneAggreator : Type 0 where
  pub authors : List NodeId

abbrev pub new_done_aggreator : DoneAggreator
new_done_aggreator = record { authors = [] }

unfoldable pub append_done : Committee → DoneAggreator → Done → Outcome Int8 × DoneAggreator
unfolding msg_type
append_done c d m =
    if has d.authors m.author
    then (err (one_more (msg_type (Messgae.done m)) m.epoch m.round m.author), d)
    else (let d' = record d { authors = m.author ∷ d.authors } in
        if length d'.authors == low_threshold c
        then (ok done_low_flag, d')
        else if length d'.authors == hight_threshold c
        then (ok done_high_flag, d')
        else (ok done_none_flag, d'))

abbrev pub random_len : ℕ
random_len = 3

pub record ElectAggreator : Type 0 where
  pub shares : List SignatureShare
  pub authors : List NodeId

abbrev pub new_elect_aggreator : ElectAggreator
new_elect_aggreator = record { shares = []; authors = [] }

-- `n` rounds of `rand = rand<<8 + int(coin[i])`. A byte is not negative, and the branch for the
-- other ones takes the zero byte to zero. Reading past the end panics.
unfoldable pub coin_bytes : ℕ → ℕ → Bytes → Outcome ℕ
coin_bytes zero rand coin = ok rand
coin_bytes (suc n) rand [] = panic
coin_bytes (suc n) rand (b ∷ rest) = coin_bytes n ((rand * 256 + b) % 2 ^ 64) rest

-- The leader that the combined signature stands for.
unfoldable pub coin_leader : Committee → Option Bytes → Outcome NodeId
unfolding coin_bytes
coin_leader c none = err (err_other 0)
coin_leader c (some coin) = elim (coin_bytes random_len 0 coin) [
  | ok rand ↦ if size c == 0 then panic else ok (rand % size c)
  | err e ↦ err e
  | panic ↦ panic
]

unfoldable pub append_elect :
    Committee → SigService → ElectAggreator → ElectShare → Outcome NodeId × ElectAggreator
unfolding msg_type coin_leader elect_share_hash combine_intact_ts_partial
append_elect c s e m =
    if has e.authors m.author
    then (err (one_more (msg_type (Messgae.elect_share m)) m.epoch m.round m.author), e)
    else (let e' = record e {
      authors = m.author ∷ e.authors;
      shares = e.shares ++ m.sig_share ∷ [];
    } in
        if length e'.shares == hight_threshold c
        then (coin_leader c (combine_intact_ts_partial s e'.shares (elect_share_hash s m)), e')
        else (ok no_node, e'))

abbrev pub action_yes : Int8
action_yes = 0

abbrev pub action_no : Int8
action_no = 1

abbrev pub action_commit : Int8
action_commit = 2

abbrev pub action_none : Int8
action_none = 3

pub record PreVoteAggreator : Type 0 where
  pub authors : List NodeId
  pub yes_nums : Int64
  pub no_nums : Int64
  pub flag : Bool

abbrev pub new_prevote_aggreator : PreVoteAggreator
new_prevote_aggreator = record { authors = []; yes_nums = 0; no_nums = 0; flag = false }

-- The counts after one more prevote.
abbrev pub count_prevote : PreVoteAggreator → Prevote → PreVoteAggreator
count_prevote p m =
    if m.flag == vote_flag_no
    then record p { authors = m.author ∷ p.authors; no_nums = inc p.no_nums }
    else record p { authors = m.author ∷ p.authors; yes_nums = inc p.yes_nums }

unfoldable pub append_prevote :
    Committee → PreVoteAggreator → Prevote → Outcome Int8 × PreVoteAggreator
unfolding msg_type
append_prevote c p m =
    if has p.authors m.author
    then (err (one_more (msg_type (Messgae.prevote m)) m.epoch m.round m.author), p)
    else (let p' = count_prevote p m in
        if slt 0 p'.yes_nums && not p'.flag
        then (ok action_yes, record p' { flag = true })
        else if p'.no_nums == hight_threshold c && not p'.flag
        then (ok action_no, p')
        else (ok action_none, p'))

pub record FinVoteAggreator : Type 0 where
  pub authors : List NodeId
  pub yes_nums : Int64
  pub no_nums : Int64

abbrev pub new_fin_vote_aggreator : FinVoteAggreator
new_fin_vote_aggreator = record { authors = []; yes_nums = 0; no_nums = 0 }

abbrev pub count_fin_vote : FinVoteAggreator → FinVote → FinVoteAggreator
count_fin_vote f m =
    if m.flag == vote_flag_yes
    then record f { authors = m.author ∷ f.authors; yes_nums = inc f.yes_nums }
    else record f { authors = m.author ∷ f.authors; no_nums = inc f.no_nums }

unfoldable pub append_fin_vote :
    Committee → FinVoteAggreator → FinVote → Outcome Int8 × FinVoteAggreator
unfolding msg_type
append_fin_vote c f m =
    if has f.authors m.author
    then (err (one_more (msg_type (Messgae.fin_vote m)) m.epoch m.round m.author), f)
    else (let f' = count_fin_vote f m in
        let th = hight_threshold c in
        if (f'.yes_nums + f'.no_nums) % 2 ^ 64 == th
        then (if f'.yes_nums == th
            then (ok action_commit, f')
            else if f'.no_nums == th
            then (ok action_no, f')
            else (ok action_yes, f'))
        else (ok action_none, f'))

pub record Aggreator : Type 0 where
  pub committee : Committee
  pub finish_aggreator : Int64 → Int64 → Option FinishAggreator
  pub done_aggreator : Int64 → Int64 → Option DoneAggreator
  pub prevote_aggreator : Int64 → Int64 → Option PreVoteAggreator
  pub finvote_aggreator : Int64 → Int64 → Option FinVoteAggreator

unfoldable pub new_aggreator : Committee → Aggreator
new_aggreator c = record {
  committee = c;
  finish_aggreator = λ _ _. none;
  done_aggreator = λ _ _. none;
  prevote_aggreator = λ _ _. none;
  finvote_aggreator = λ _ _. none;
}

-- The first vote of a round is counted by a counter that is thrown away: the map gets another one.
unfoldable pub add_finish_vote : Aggreator → Finish → Outcome Bool × Aggreator
unfolding append_finish
add_finish_vote a m = elim (a.finish_aggreator m.epoch m.round) [
  | some item ↦
      let (r, item') = append_finish a.committee item m in
      (r, record a { finish_aggreator = put2 a.finish_aggreator m.epoch m.round (some item') })
  | none ↦
      let (r, _) = append_finish a.committee new_finish_aggreator m in
      (
        r,
        record a {
          finish_aggreator = put2 a.finish_aggreator m.epoch m.round (some new_finish_aggreator);
        },
      )
]

unfoldable pub add_done_vote : Aggreator → Done → Outcome Int8 × Aggreator
unfolding append_done
add_done_vote a m =
    let (r, item) =
      append_done a.committee (or_new (a.done_aggreator m.epoch m.round) new_done_aggreator) m in
    (r, record a { done_aggreator = put2 a.done_aggreator m.epoch m.round (some item) })

unfoldable pub add_pre_vote : Aggreator → Prevote → Outcome Int8 × Aggreator
unfolding append_prevote
add_pre_vote a m =
    let (r, item) =
      append_prevote a.committee
        (or_new (a.prevote_aggreator m.epoch m.round) new_prevote_aggreator) m in
    (r, record a { prevote_aggreator = put2 a.prevote_aggreator m.epoch m.round (some item) })

unfoldable pub add_fin_vote : Aggreator → FinVote → Outcome Int8 × Aggreator
unfolding append_fin_vote
add_fin_vote a m =
    let (r, item) =
      append_fin_vote a.committee
        (or_new (a.finvote_aggreator m.epoch m.round) new_fin_vote_aggreator) m in
    (r, record a { finvote_aggreator = put2 a.finvote_aggreator m.epoch m.round (some item) })
