-- ===== src/Mvba/Cbc/Defs.antt =====
-- core/mvba/consensus/cbc.go. A method runs as a whole here, with no other one in
-- between (Cbc/Steps cuts it), and gives the instance after it and what it did. The instance does
-- not keep the tag under which the core files it, so the methods that start goroutines take it.
use bft_mvba.Base.{
  ◌+◌, ◌-◌, ◌%◌, ◌^◌, ℕ, Bool, true, false, not, ltb, List, [], ◌∷◌, ◌++◌, Option, none, some,
  Outcome, ok, panic, if◌then◌else◌, ◌==◌, Int64,
}
use bft_mvba.Committee.{NodeId, hight_threshold}
use bft_mvba.Crypto.{Digest}
use bft_mvba.Methods.{Identity}
use bft_mvba.Mvba.Messages.{
  Uint8, Slice, Block, block_hash, Proposal, Commitment, Ready, Final, new_ready, new_final,
  Messgae,
}
use bft_mvba.Mvba.Effects.{
  Effect, send, loopback, go_cbc, cbc_back, tell_all, CbcTask, data_cbc, commit_cbc,
}

abbrev pub Int32 : Type 0
Int32 = ℕ

-- `Add(1)` of an atomic.Int32.
unfoldable pub inc32 : Int32 → Int32
inc32 n = (n + 1) % 2 ^ 32

-- `int(n)`
unfoldable pub int_of_int32 : Int32 → Int64
int_of_int32 n = if ltb n (2 ^ 31) then n else n + (2 ^ 64 - 2 ^ 32)

pub record Cbc : Type 0 where
  pub proposer : NodeId
  pub epoch : Int64
  pub block_hash : Option Digest
  pub commitment : Option Slice
  pub unhandle_ready : List Ready
  pub unhandle_final : List Final
  pub ready_cnts : Int32
  pub final_cnts : Int32

unfoldable pub new_cbc : NodeId → Int64 → Cbc
new_cbc proposer epoch = record {
  proposer = proposer;
  epoch = epoch;
  block_hash = none;
  commitment = none;
  unhandle_ready = [];
  unhandle_final = [];
  ready_cnts = 0;
  final_cnts = 0;
}

-- The goroutines for the messages that were put aside, and the lists emptied.
abbrev pub go_readys : Cbc → Uint8 → List Ready → List Effect
go_readys s tag [] = []
go_readys s tag (r ∷ rs) = go_cbc s.epoch s.proposer tag (CbcTask.ready r) ∷ go_readys s tag rs

abbrev pub go_finals : Cbc → Uint8 → List Final → List Effect
go_finals s tag [] = []
go_finals s tag (f ∷ fs) = go_cbc s.epoch s.proposer tag (CbcTask.final f) ∷ go_finals s tag fs

unfoldable pub release : Cbc → Uint8 → Cbc × List Effect
release s tag = (
  record s { unhandle_ready = []; unhandle_final = [] },
  go_readys s tag s.unhandle_ready ++ go_finals s tag s.unhandle_final,
)

-- The vote goes to the proposer, which may be the node itself.
unfoldable pub make_vote : Identity → Cbc → Uint8 → List Effect
unfolding new_ready
make_vote n s tag =
    let r = new_ready n.sig_service n.name s.proposer s.epoch tag in
    (if n.name == s.proposer
      then loopback (Messgae.ready r)
      else send n.name s.proposer (Messgae.ready r))
    ∷ []

abbrev pub with_vote : Identity → Uint8 → Cbc × List Effect → Cbc × List Effect
with_vote n tag (s, es) = (s, es ++ make_vote n s tag)

-- `p.B.Hash()` panics on a nil block.
abbrev pub hold_block : Identity → Cbc → Uint8 → Option Block → Outcome (Cbc × List Effect)
hold_block n s tag none = panic
hold_block n s tag (some b) = ok (
    with_vote n data_cbc
      (release (record s { block_hash = some (block_hash n.sig_service b) }) tag))

unfoldable pub process_proposal : Identity → Cbc → Uint8 → Proposal → Outcome (Cbc × List Effect)
unfolding release make_vote
process_proposal n s tag p =
    if not (p.author == s.proposer) then ok (s, []) else hold_block n s tag p.b

unfoldable pub process_commitment : Identity → Cbc → Uint8 → Commitment → Cbc × List Effect
unfolding release make_vote
process_commitment n s tag m =
    if not (m.author == s.proposer)
    then (s, [])
    else with_vote n commit_cbc (release (record s { commitment = m.c }) tag)

abbrev pub is_nil : {A : Type 0} → Option A → Bool
is_nil none = true
is_nil (some _) = false

-- Does a vote with the tag have to wait for what it is about?
abbrev pub waits : Cbc → Uint8 → Bool
waits s tag =
    if tag == data_cbc
    then is_nil s.block_hash
    else if tag == commit_cbc
    then is_nil s.commitment
    else false

unfoldable pub process_ready : Identity → Cbc → Ready → Cbc × List Effect
unfolding inc32 int_of_int32 new_final
process_ready n s r =
    if waits s r.tag
    then (record s { unhandle_ready = s.unhandle_ready ++ r ∷ [] }, [])
    else (let cnts = inc32 s.ready_cnts in
        (
          record s { ready_cnts = cnts },
          if int_of_int32 cnts == hight_threshold n.committee
              then tell_all n (Messgae.final (new_final n.sig_service n.name s.epoch r.tag))
              else [],
        ))

unfoldable pub process_final : Identity → Cbc → Final → Cbc × List Effect
unfolding inc32 int_of_int32
process_final n s f =
    if waits s f.tag
    then (record s { unhandle_final = s.unhandle_final ++ f ∷ [] }, [])
    else (let cnts = inc32 s.final_cnts in
        (
          record s { final_cnts = cnts },
          if int_of_int32 cnts == 1
              then cbc_back (record {
                epoch = s.epoch;
                author = s.proposer;
                tag = f.tag;
                commitment = s.commitment;
              })
                ∷ []
              else [],
        ))

unfoldable pub run_cbc : Identity → Cbc → Uint8 → CbcTask → Outcome (Cbc × List Effect)
unfolding process_proposal process_commitment process_ready process_final
run_cbc n s tag (CbcTask.proposal p) = process_proposal n s tag p
run_cbc n s tag (CbcTask.commitment m) = ok (process_commitment n s tag m)
run_cbc n s tag (CbcTask.ready r) = ok (process_ready n s r)
run_cbc n s tag (CbcTask.final f) = ok (process_final n s f)
