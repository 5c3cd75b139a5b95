-- ===== src/Smvba/Effects.antt =====
-- What the code of core/smvba/consensus/ does to its surroundings, as values in the order of doing:
-- messages to the network, messages into the node's own receive channel, goroutines started, and
-- blocks into the commit channel. Channels that are full, on which the code would wait, are left out.
use bft_mvba.Base.{List, [], ◌∷◌, Int64}
use bft_mvba.Committee.{NodeId, no_node}
use bft_mvba.Methods.{Identity}
use bft_mvba.Smvba.Messages.{Block, SpbProposal, SpbVote}
use bft_mvba.Smvba.Signing.{Messgae}

pub data Effect : Type 0 where
  send : (source target : NodeId) → Messgae → Effect
  loopback : Messgae → Effect
  go_proposal : (epoch round : Int64) → (node : NodeId) → SpbProposal → Effect
  go_vote : (epoch round : Int64) → (node : NodeId) → SpbVote → Effect
  to_commit : Block → Effect

-- `Transimtor.Send` to everybody else, and a copy into the own receive channel.
abbrev pub tell_all : Identity → Messgae → List Effect
tell_all n m = send n.name no_node m ∷ loopback m ∷ []
