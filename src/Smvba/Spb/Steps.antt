-- ===== src/Smvba/Spb/Steps.antt =====
-- core/smvba/consensus/spb.go, cut where a goroutine reads or writes what it shares with the others:
-- the block hash, the lock flag, the votes under `vm`, and what is put aside under `uvm`. The sends
-- are cut off as well.
use bft_mvba.Methods
use bft_mvba.Methods.{Identity, Method}
use bft_mvba.Base.{
  true, not, List, [], ◌∷◌, ◌++◌, Option, none, some, Outcome, ok, panic, if◌then◌else◌, ◌==◌, Int8,
  inc, put,
}
use bft_mvba.Committee.{hight_threshold}
use bft_mvba.Crypto.{Digest}
use bft_mvba.Threads.{Running, Step, run_step}
use bft_mvba.Smvba.Messages.{Block, block_hash, SpbProposal, SpbVote, spb_one_phase, spb_two_phase}
use bft_mvba.Smvba.Signing.{new_spb_vote}
use bft_mvba.Smvba.Effects.{Effect}
use bft_mvba.Smvba.Spb.Defs.{Spb, reply, go_proposals, go_votes, on_quorum}
use bft_mvba.Smvba.Spb.Runs.{Task, proposal, vote}

-- Where a goroutine waits: before the write of the hash of the block that it found acceptable, before
-- its vote, before what was put aside is taken out, and so on.
pub data Point : Type 0 where
  storing : SpbProposal → Block → Point
  voting : SpbProposal → Digest → Point
  releasing : Point
  keeping_proposal : SpbProposal → Point
  locking : SpbProposal → Point
  keeping_vote : SpbVote → Point
  counting : SpbVote → Point
  completing : (phase : Int8) → Point

abbrev M : Type 0
M = Method Spb Effect (List Point)

abbrev go_to : Spb → Point → Outcome (List Point) × Spb × List Effect
go_to s p = (ok (p ∷ []), s, [])

abbrev leave : Spb → List Effect → Outcome (List Point) × Spb × List Effect
leave s es = (ok [], s, es)

abbrev check_block : Spb → SpbProposal → Option Block → Outcome (List Point) × Spb × List Effect
check_block s p none = (panic, s, [])
check_block s p (some b) =
    if not (s.proposer == b.proposer) then leave s [] else go_to s (storing p b)

-- Up to the first read of the block hash, with the check that follows on it.
unfoldable pub look : Task → M
look (proposal p) s =
    if p.phase == spb_one_phase
    then elim s.block_hash [ some _ ↦ leave s [] | none ↦ check_block s p p.b ]
    else if p.phase == spb_two_phase
    then elim s.block_hash [ none ↦ go_to s (keeping_proposal p) | some _ ↦ go_to s (locking p) ]
    else leave s []
look (vote v) s = elim s.block_hash [
  | none ↦ go_to s (keeping_vote v)
  | some _ ↦ go_to s (counting v)
]

abbrev count : Identity → Spb → SpbVote → Outcome (List Point) × Spb × List Effect
count n s v =
    let num = inc (s.votes v.phase) in
    let s' = record s { votes = put s.votes v.phase num } in
    if num == hight_threshold n.committee then go_to s' (completing v.phase) else leave s' []

-- From a point to the next one.
unfoldable pub advance : Identity → Point → M
advance n (storing p b) s =
    let d = block_hash n.sig_service b in go_to (record s { block_hash = some d }) (voting p d)
advance n (voting p d) s =
    let v = new_spb_vote n.sig_service n.name p.author d s.epoch s.round p.phase in
    (ok (if p.phase == spb_one_phase then releasing ∷ [] else []), s, reply n s v ∷ [])
advance n releasing s =
    leave (record s { unhandle_vote = []; unhandle_proposal = [] })
      (go_proposals s s.unhandle_proposal ++ go_votes s s.unhandle_vote)
advance n (keeping_proposal p) s =
    leave (record s { unhandle_proposal = s.unhandle_proposal ++ p ∷ [] }) []
advance n (locking p) s = go_to (record s { lock_flag = true }) (voting p 0)
advance n (keeping_vote v) s = leave (record s { unhandle_vote = s.unhandle_vote ++ v ∷ [] }) []
advance n (counting v) s = count n s v
advance n (completing phase) s = elim s.block_hash [
  | some d ↦ leave s (on_quorum n s d phase)
  | none ↦ if phase == spb_two_phase then (panic, s, []) else leave s (on_quorum n s 0 phase)
]

-- An instance with its goroutines after some steps.
abbrev pub Reaches :
    Identity → Running Spb Point → Running Spb Point → List (Step Task) → List Effect → Type 0
Reaches n = Methods.Reaches (run_step look (advance n))
