-- ===== src/Mvba/Runs.antt =====
-- core/mvba/consensus/core.go as a transition system: one node, what comes out of its three channels,
-- and the goroutines of its instances, in any order. A goroutine runs as one step. What a handler
-- returns does not end the run: an error is logged, and a panic, which would end the process, is let
-- go on.
use bft_mvba.Base.{List, Int64}
use bft_mvba.Committee.{NodeId}
use bft_mvba.Methods
use bft_mvba.Methods.{Identity, IsTrace, Respects, Respects-bind, lift}
use bft_mvba.Mvba.Messages.{Uint8, Messgae}
use bft_mvba.Mvba.Effects.{Effect, CbcTask, AbaTask, CbcBack, AbaBack}
use bft_mvba.Mvba.Core.{
  Services, Core, M, first_proposal, receive, run_cbc_task, run_aba_task, process_cbc_back,
  process_aba_back,
}

pub data Event : Type 0 where
  begin : Event
  message : Messgae → Event
  cbc_result : CbcBack → Event
  aba_result : AbaBack → Event
  cbc_task : (epoch : Int64) → NodeId → (tag : Uint8) → CbcTask → Event
  aba_task : (epoch round : Int64) → AbaTask → Event

unfoldable pub run_event : Services → Event → M (Unit {0})
unfolding first_proposal receive run_cbc_task run_aba_task process_cbc_back process_aba_back
run_event sv begin = first_proposal
run_event sv (message m) = receive sv m
run_event sv (cbc_result b) = process_cbc_back b
run_event sv (aba_result b) = process_aba_back sv b
run_event sv (cbc_task epoch node tag t) = run_cbc_task epoch node tag t
run_event sv (aba_task epoch round t) = run_aba_task epoch round t

-- A node after some events.
abbrev pub Reaches : Services → Core → Core → List Event → List Effect → Type 0
Reaches sv = Methods.Reaches (run_event sv)
