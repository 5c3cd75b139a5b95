-- ===== src/Vaba/Elector.antt =====
-- core/vaba/consensus/elector.go. The loop over the bytes of the coin is that of the elector of smvba.
use bft_mvba.Base.{
  [], ◌∷◌, ◌++◌, List, length, Option, none, some, Outcome, ok, err, panic, err_one_more_message,
  if◌then◌else◌, ◌==◌, has, Int64, put, or_new,
}
use bft_mvba.Committee.{NodeId, no_node, Committee, hight_threshold}
use bft_mvba.Crypto.{SigService, SignatureShare, combine_intact_ts_partial}
use bft_mvba.Smvba.Aggreator.{coin_leader}
use bft_mvba.Vaba.Messages.{ElectShare, elect_share_hash, Messgae, msg_type}

pub record ElectAggreator : Type 0 where
  pub shares : List SignatureShare
  pub authors : List NodeId

abbrev pub new_elect_aggreator : ElectAggreator
new_elect_aggreator = record { shares = []; authors = [] }

unfoldable pub append_elect :
    Committee → SigService → ElectAggreator → ElectShare → Outcome NodeId × ElectAggreator
unfolding msg_type coin_leader elect_share_hash combine_intact_ts_partial
append_elect c s e m =
    if has e.authors m.author
    then (err (err_one_more_message (msg_type (Messgae.elect_share m)) m.epoch 0 m.author), e)
    else (let e' = record e {
      authors = m.author ∷ e.authors;
      shares = e.shares ++ m.sig_share ∷ [];
    } in
        if length e'.shares == hight_threshold c
        then (coin_leader c (combine_intact_ts_partial s e'.shares (elect_share_hash s m)), e')
        else (ok no_node, e'))

pub record Elector : Type 0 where
  pub leaders : Int64 → Option NodeId
  pub elect_aggreators : Int64 → Option ElectAggreator
  pub sig_service : SigService
  pub committee : Committee

unfoldable pub new_elector : SigService → Committee → Elector
new_elector s c = record {
  leaders = λ _. none;
  elect_aggreators = λ _. none;
  sig_service = s;
  committee = c;
}

unfoldable pub set_leader : Elector → Int64 → NodeId → Elector
set_leader e epoch leader = record e { leaders = put e.leaders epoch (some leader) }

unfoldable pub leader : Elector → Int64 → NodeId
leader e epoch = or_new (e.leaders epoch) no_node

-- What follows the counter's answer: an error is swallowed, and a leader is recorded.
abbrev pub note_leader : Elector → ElectShare → Outcome NodeId → Outcome NodeId × Elector
note_leader e m (err _) = (ok no_node, e)
note_leader e m panic = (panic, e)
note_leader e m (ok node) =
    if node == no_node then (ok node, e) else (ok node, set_leader e m.epoch node)

unfoldable pub add_share_vote : Elector → ElectShare → Outcome NodeId × Elector
unfolding set_leader append_elect
add_share_vote e m =
    let (r, item) =
      append_elect e.committee e.sig_service
        (or_new (e.elect_aggreators m.epoch) new_elect_aggreator) m in
    note_leader (record e { elect_aggreators = put e.elect_aggreators m.epoch (some item) }) m r
