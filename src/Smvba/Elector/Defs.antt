-- ===== src/Smvba/Elector/Defs.antt =====
-- core/smvba/consensus/elector.go.
use bft_mvba.Base.{
  Option, none, some, Outcome, ok, err, panic, if◌then◌else◌, ◌==◌, Int64, put2, or_new,
}
use bft_mvba.Committee.{NodeId, no_node, Committee}
use bft_mvba.Crypto.{SigService}
use bft_mvba.Smvba.Messages.{ElectShare}
use bft_mvba.Smvba.Aggreator.{ElectAggreator, new_elect_aggreator, append_elect}

pub record Elector : Type 0 where
  pub leaders : Int64 → Int64 → Option NodeId
  pub elect_aggreators : Int64 → Int64 → Option ElectAggreator
  pub sig_service : SigService
  pub committee : Committee

unfoldable pub new_elector : SigService → Committee → Elector
new_elector s c = record {
  leaders = λ _ _. none;
  elect_aggreators = λ _ _. none;
  sig_service = s;
  committee = c;
}

unfoldable pub set_leader : Elector → Int64 → Int64 → NodeId → Elector
set_leader e epoch round leader = record e { leaders = put2 e.leaders epoch round (some leader) }

unfoldable pub leader : Elector → Int64 → Int64 → NodeId
leader e epoch round = or_new (e.leaders epoch round) no_node

-- The counter after one more share, in its place.
abbrev pub with_aggreator : Elector → ElectShare → ElectAggreator → Elector
with_aggreator e m item = record e {
  elect_aggreators = put2 e.elect_aggreators m.epoch m.round (some item);
}

-- What follows the counter's answer: an error is swallowed, and a leader is recorded.
abbrev pub note_leader : Elector → ElectShare → Outcome NodeId → Outcome NodeId × Elector
note_leader e m (err _) = (ok no_node, e)
note_leader e m panic = (panic, e)
note_leader e m (ok node) =
    if node == no_node then (ok node, e) else (ok node, set_leader e m.epoch m.round node)

unfoldable pub add_share_vote : Elector → ElectShare → Outcome NodeId × Elector
unfolding set_leader
add_share_vote e m =
    let (r, item) =
      append_elect e.committee e.sig_service
        (or_new (e.elect_aggreators m.epoch m.round) new_elect_aggreator) m in
    note_leader (with_aggreator e m item) m r
