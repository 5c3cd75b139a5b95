-- ===== src/Mvba/Effects.antt =====
-- What the code of core/mvba/consensus/ does to its surroundings, as values in the order of doing:
-- messages to the network, messages into the node's own receive channel, goroutines started, results
-- of the instances for the core, and blocks into the commit channel. Channels that are full, on which
-- the code would wait, are left out. With a block that goes out stands the epoch that it is committed for,
-- which the channel does not carry.
use bft_mvba.Base.{ℕ, List, [], ◌∷◌, Option, Int64}
use bft_mvba.Committee.{NodeId, no_node}
use bft_mvba.Methods.{Identity}
use bft_mvba.Mvba.Messages.{
  Uint8, Slice, Block, Proposal, Commitment, Ready, Final, AbaVal, AbaMux, AbaHalt, Messgae,
}

abbrev pub data_cbc : Uint8
data_cbc = 0

abbrev pub commit_cbc : Uint8
commit_cbc = 1

pub record CbcBack : Type 0 where
  pub epoch : Int64
  pub author : NodeId
  pub tag : Uint8
  pub commitment : Option Slice

abbrev pub aba_invoke : ℕ
aba_invoke = 0

abbrev pub aba_halted : ℕ
aba_halted = 1

pub record AbaBack : Type 0 where
  pub typ : ℕ
  pub epoch : Int64
  pub ex_round : Int64
  pub in_round : Int64
  pub flag : Uint8
  pub leader : NodeId

-- The work of a goroutine on a broadcast.
pub data CbcTask : Type 0 where
  proposal : Proposal → CbcTask
  commitment : Commitment → CbcTask
  ready : Ready → CbcTask
  final : Final → CbcTask

-- The work of a goroutine on an agreement.
pub data AbaTask : Type 0 where
  val : AbaVal → AbaTask
  mux : AbaMux → AbaTask
  coin : (in_round : Int64) → (coin : Uint8) → (leader : NodeId) → AbaTask
  halt : AbaHalt → AbaTask

pub data Effect : Type 0 where
  send : (source target : NodeId) → Messgae → Effect
  loopback : Messgae → Effect
  go_cbc : (epoch : Int64) → (node : NodeId) → (tag : Uint8) → CbcTask → Effect
  go_aba : (epoch round : Int64) → AbaTask → Effect
  cbc_back : CbcBack → Effect
  aba_back : AbaBack → Effect
  to_commit : (epoch : Int64) → Block → Effect

-- `Transimtor.Send` to everybody else, and a copy into the own receive channel.
abbrev pub tell_all : Identity → Messgae → List Effect
tell_all n m = send n.name no_node m ∷ loopback m ∷ []
