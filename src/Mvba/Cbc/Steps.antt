-- ===== src/Mvba/Cbc/Steps.antt =====
-- core/mvba/consensus/cbc.go, cut where a goroutine lets go of a mutex or reads and writes an atomic
-- counter: the block and the commitment under `BMutex`, what is put aside under `unHandleMutex`, the
-- two counters. A goroutine works under the tag that the core files the instance under.
use bft_mvba.Methods
use bft_mvba.Methods.{Identity, Method}
use bft_mvba.Base.{
  not, List, [], ◌∷◌, ◌++◌, Option, none, some, Outcome, ok, panic, if◌then◌else◌, ◌==◌,
}
use bft_mvba.Committee.{hight_threshold}
use bft_mvba.Threads.{Running, Step, run_step}
use bft_mvba.Mvba.Messages.{Uint8, Block, block_hash, Ready, Final, new_final, Messgae}
use bft_mvba.Mvba.Effects.{Effect, cbc_back, tell_all, CbcTask, data_cbc, commit_cbc}
use bft_mvba.Mvba.Cbc.Defs.{Cbc, inc32, int_of_int32, release, make_vote, waits}

-- Where a goroutine waits: before it takes out what was put aside, before its vote with a tag, before
-- it puts a message aside, before it counts one,
-- and before it reads the commitment for the result that goes to the core.
pub data Point : Type 0 where
  releasing : (vote_tag : Uint8) → Point
  voting : (vote_tag : Uint8) → Point
  keeping_ready : Ready → Point
  keeping_final : Final → Point
  counting_ready : Ready → Point
  counting_final : Final → Point
  finishing : Final → Point

abbrev M : Type 0
M = Method Cbc Effect (List Point)

abbrev go_to : Cbc → Point → Outcome (List Point) × Cbc × List Effect
go_to s p = (ok (p ∷ []), s, [])

abbrev leave : Cbc → List Effect → Outcome (List Point) × Cbc × List Effect
leave s es = (ok [], s, es)

abbrev set_block : Identity → Cbc → Option Block → Outcome (List Point) × Cbc × List Effect
set_block n s none = (panic, s, [])
set_block n s (some b) =
    go_to (record s { block_hash = some (block_hash n.sig_service b) }) (releasing data_cbc)

-- What a goroutine does under `BMutex`, with the check of the author before it.
unfoldable pub look : Identity → CbcTask → M
look n (CbcTask.proposal p) s =
    if not (p.author == s.proposer) then leave s [] else set_block n s p.b
look n (CbcTask.commitment m) s =
    if not (m.author == s.proposer)
    then leave s []
    else go_to (record s { commitment = m.c }) (releasing commit_cbc)
look n (CbcTask.ready r) s =
    if waits s r.tag then go_to s (keeping_ready r) else go_to s (counting_ready r)
look n (CbcTask.final f) s =
    if waits s f.tag then go_to s (keeping_final f) else go_to s (counting_final f)

-- From a point to the next one.
unfoldable pub advance : Identity → Uint8 → Point → M
unfolding release make_vote inc32 int_of_int32 new_final
advance n tag (releasing vote_tag) s =
    let (s', es) = release s tag in (ok (voting vote_tag ∷ []), s', es)
advance n tag (voting vote_tag) s = leave s (make_vote n s vote_tag)
advance n tag (keeping_ready r) s =
    leave (record s { unhandle_ready = s.unhandle_ready ++ r ∷ [] }) []
advance n tag (keeping_final f) s =
    leave (record s { unhandle_final = s.unhandle_final ++ f ∷ [] }) []
advance n tag (counting_ready r) s =
    let cnts = inc32 s.ready_cnts in
    leave (record s { ready_cnts = cnts })
      (if int_of_int32 cnts == hight_threshold n.committee
        then tell_all n (Messgae.final (new_final n.sig_service n.name s.epoch r.tag))
        else [])
advance n tag (counting_final f) s =
    let cnts = inc32 s.final_cnts in
    let s' = record s { final_cnts = cnts } in
    if int_of_int32 cnts == 1 then go_to s' (finishing f) else leave s' []
advance n tag (finishing f) s = leave s (
    cbc_back
      (record { epoch = s.epoch; author = s.proposer; tag = f.tag; commitment = s.commitment })
    ∷ [])

-- An instance with its goroutines after some steps.
abbrev pub Reaches :
    Identity
    → Uint8
    → Running Cbc Point
    → Running Cbc Point
    → List (Step CbcTask)
    → List Effect
    → Type 0
Reaches n tag = Methods.Reaches (run_step (look n) (advance n tag))
