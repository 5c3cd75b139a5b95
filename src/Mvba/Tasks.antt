-- ===== src/Mvba/Tasks.antt =====
-- core/mvba/consensus/core.go with cbc.go: what a node does where a broadcast runs a task.
use bft_mvba.Base.{List, [], ok, err, panic, Outcome, Int64, ◌≡◌, refl}
use bft_mvba.Committee.{NodeId}
use bft_mvba.Methods.{Identity, gather, ◌>>=◌, lift}
use bft_mvba.Mvba.Messages.{Uint8}
use bft_mvba.Mvba.Effects.{Effect, go_cbc, CbcTask}
use bft_mvba.Mvba.Cbc.{Cbc, run_cbc, make_vote, process_ready, process_final}
use bft_mvba.Mvba.Cbc.Shows.{done_by, gather-process_proposal, gather-process_commitment}
use bft_mvba.Mvba.Core.{Core, cbc_or_new, leave_cbc, run_cbc_task}

leave-done_by :
    (e : Int64) (n : NodeId) (t : Uint8) (c : Core) (r : Outcome (Cbc × List Effect))
    → ((lift r >>= leave_cbc e n t) c).2 ≡ done_by r
leave-done_by e n t c (ok (s, es)) = refl
leave-done_by e n t c (err _) = refl
leave-done_by e n t c panic = refl

pub run_cbc_task-done_by :
    (e : Int64) (n : NodeId) (t : Uint8) (k : CbcTask) (c : Core)
    → (run_cbc_task e n t k c).2 ≡ done_by (run_cbc c.identity (cbc_or_new c e n t) t k)
unfolding run_cbc_task
run_cbc_task-done_by e n t k c = leave-done_by e n t c (run_cbc c.identity (cbc_or_new c e n t) t k)

module _ {A : Type 0} (f : Effect → List A)
    (idle : (e : Int64) (n : NodeId) (t : Uint8) (k : CbcTask) → f (go_cbc e n t k) ≡ [])
    (mute : (n : Identity) (s : Cbc) (t : Uint8) → gather f (make_vote n s t) ≡ []) where
  -- Of the four tasks only two show to an observer of neither goroutines nor votes.
  pub gather-run_cbc :
      (n : Identity) (s : Cbc) (t : Uint8) (k : CbcTask)
      → ((r : _) → gather f (process_ready n s r).1 ≡ [])
      → ((m : _) → gather f (process_final n s m).1 ≡ [])
      → gather f (done_by (run_cbc n s t k)) ≡ []
  unfolding run_cbc
  gather-run_cbc n s t (CbcTask.proposal p) rs fs = gather-process_proposal f idle mute n s t p
  gather-run_cbc n s t (CbcTask.commitment m) rs fs = gather-process_commitment f idle mute n s t m
  gather-run_cbc n s t (CbcTask.ready r) rs fs = rs r
  gather-run_cbc n s t (CbcTask.final m) rs fs = fs m
