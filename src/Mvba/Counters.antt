-- ===== src/Mvba/Counters.antt =====
-- core/mvba/consensus/aggreator.go. A `(false, 0)` of the coin's counter is `none`.
use bft_mvba.Base.{
  ℕ, zero, suc, ◌+◌, ◌%◌, ◌*◌, ◌^◌, Bool, true, false, not, ◌&&◌, List, [], ◌∷◌, ◌++◌, length,
  Option, none, some, Outcome, ok, err, err_one_more_message, err_other, if◌then◌else◌, ◌==◌, has,
  Int64, put2, put3, or_new,
}
use bft_mvba.Committee.{NodeId, Committee, hight_threshold}
use bft_mvba.Crypto.{Bytes, SigService, SignatureShare, combine_intact_ts_partial}
use bft_mvba.Mvba.Messages.{
  Uint8, flag_yes, Vote, vote_type, CoinShare, coin_share_hash, coin_share_type,
}

abbrev pub action_no : Uint8
action_no = 0

abbrev pub action_one : Uint8
action_one = 1

abbrev pub action_two : Uint8
action_two = 2

pub record VoteAggreator : Type 0 where
  pub used : List NodeId
  pub flag : Bool

abbrev pub new_vote_aggreator : VoteAggreator
new_vote_aggreator = record { used = []; flag = false }

unfoldable pub append_vote : Committee → VoteAggreator → Vote → Outcome Uint8 × VoteAggreator
append_vote c v m =
    if has v.used m.author
    then (err (err_one_more_message vote_type m.epoch m.round m.author), v)
    else (let v' = record v { used = m.author ∷ v.used } in
        if not v'.flag && m.flag == flag_yes
        then (ok action_one, record v' { flag = true })
        else if not v'.flag && length v'.used == hight_threshold c
        then (ok action_two, record v' { flag = true })
        else (ok action_no, v'))

abbrev pub random_len : ℕ
random_len = 7

-- At most `n` rounds of `seed = seed<<8 + uint64(data[i])`.
unfoldable pub coin_seed : ℕ → ℕ → Bytes → ℕ
coin_seed zero seed bytes = seed
coin_seed (suc n) seed [] = seed
coin_seed (suc n) seed (b ∷ rest) = coin_seed n ((seed * 256 + b) % 2 ^ 64) rest

pub record CoinAggreator : Type 0 where
  pub used : List NodeId
  pub shares : List SignatureShare

abbrev pub new_coin_aggreator : CoinAggreator
new_coin_aggreator = record { used = []; shares = [] }

-- The coin that a combined signature stands for.
unfoldable pub toss : Option Bytes → Outcome (Option Uint8)
unfolding coin_seed
toss none = err (err_other 0)
toss (some bytes) = ok (some (coin_seed random_len 0 bytes % 2))

-- The author is looked up among those that are used, and not put there.
unfoldable pub append_coin :
    Committee → SigService → CoinAggreator → CoinShare → Outcome (Option Uint8) × CoinAggreator
unfolding toss combine_intact_ts_partial
append_coin c s k m =
    if has k.used m.author
    then (err (err_one_more_message coin_share_type m.epoch m.round m.author), k)
    else (let k' = record k { shares = k.shares ++ m.share ∷ [] } in
        if length k'.shares == hight_threshold c
        then (toss (combine_intact_ts_partial s k'.shares (coin_share_hash s m)), k')
        else (ok none, k'))

pub record Aggreator : Type 0 where
  pub committee : Committee
  pub sig_service : SigService
  pub votes : Int64 → Int64 → Option VoteAggreator
  pub coins : Int64 → Int64 → Int64 → Option CoinAggreator

abbrev pub new_aggreator : Committee → SigService → Aggreator
new_aggreator c s = record {
  committee = c;
  sig_service = s;
  votes = λ _ _. none;
  coins = λ _ _ _. none;
}

unfoldable pub add_vote : Aggreator → Vote → Outcome Uint8 × Aggreator
unfolding append_vote
add_vote a m =
    let (r, item) =
      append_vote a.committee (or_new (a.votes m.epoch m.round) new_vote_aggreator) m in
    (r, record a { votes = put2 a.votes m.epoch m.round (some item) })

unfoldable pub add_coin_share : Aggreator → CoinShare → Outcome (Option Uint8) × Aggreator
unfolding append_coin
add_coin_share a m =
    let (r, item) =
      append_coin a.committee a.sig_service
        (or_new (a.coins m.epoch m.round m.in_round) new_coin_aggreator) m in
    (r, record a { coins = put3 a.coins m.epoch m.round m.in_round (some item) })
