-- ===== src/Vaba/Aggreator.antt =====
-- core/vaba/consensus/aggreator.go. Each `Append` and each `add…Vote` gives what it returns and the
-- counter as it leaves it, on the error path too.
use bft_mvba.Base.{
  ℕ, Bool, true, false, List, [], ◌∷◌, length, Option, none, some, Outcome, ok, err,
  err_one_more_message, if◌then◌else◌, ◌==◌, has, Int64, put, or_new,
}
use bft_mvba.Committee.{NodeId, Committee, hight_threshold}
use bft_mvba.Vaba.Messages.{Done, SkipShare, Messgae, msg_type}

pub record NormalAggreator : Type 0 where
  pub authors : List NodeId

abbrev pub new_normal_aggreator : NormalAggreator
new_normal_aggreator = record { authors = [] }

unfoldable pub append_normal :
    NormalAggreator → NodeId → Committee → ℕ → Int64 → Outcome Bool × NormalAggreator
append_normal a node c typ epoch =
    if has a.authors node
    then (err (err_one_more_message typ epoch 0 node), a)
    else (let a' = record a { authors = node ∷ a.authors } in
        if length a'.authors == hight_threshold c then (ok true, a') else (ok false, a'))

pub record Aggreator : Type 0 where
  pub committee : Committee
  pub done_aggreator : Int64 → Option NormalAggreator
  pub skip_aggreator : Int64 → Option NormalAggreator

unfoldable pub new_aggreator : Committee → Aggreator
new_aggreator c = record { committee = c; done_aggreator = λ _. none; skip_aggreator = λ _. none }

unfoldable pub add_done_vote : Aggreator → Done → Outcome Bool × Aggreator
unfolding append_normal msg_type
add_done_vote a m =
    let (r, item) =
      append_normal (or_new (a.done_aggreator m.epoch) new_normal_aggreator) m.author a.committee
        (msg_type (Messgae.done m)) m.epoch in
    (r, record a { done_aggreator = put a.done_aggreator m.epoch (some item) })

unfoldable pub add_skip_vote : Aggreator → SkipShare → Outcome Bool × Aggreator
unfolding append_normal msg_type
add_skip_vote a m =
    let (r, item) =
      append_normal (or_new (a.skip_aggreator m.epoch) new_normal_aggreator) m.author a.committee
        (msg_type (Messgae.skip_share m)) m.epoch in
    (r, record a { skip_aggreator = put a.skip_aggreator m.epoch (some item) })
