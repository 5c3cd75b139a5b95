-- ===== src/Vaba/Effects.antt =====
-- What the code of core/vaba/consensus/ does to its surroundings, as values in the order of doing:
-- messages to the network, messages into the node's own receive channel, goroutines started, and blocks
-- into the commit channel.
-- Channels that are full, on which the code would wait, are left out.
use bft_mvba.Base.{List, [], ◌∷◌, Int64}
use bft_mvba.Committee.{NodeId, no_node}
use bft_mvba.Vaba.Messages.{Block, Proposal, Vote, Messgae}

pub data Effect : Type 0 where
  send : (source target : NodeId) → Messgae → Effect
  loopback : Messgae → Effect
  nil_vote : (target : NodeId) → Effect
  go_proposal : (epoch : Int64) → (node : NodeId) → Proposal → Effect
  to_commit : Block → Effect
  go_vote : (epoch : Int64) → (node : NodeId) → Vote → Effect

-- `Transimtor.Send` from a node to everybody else, and a copy into the own receive channel.
abbrev pub tell_all : NodeId → Messgae → List Effect
tell_all source m = send source no_node m ∷ loopback m ∷ []
