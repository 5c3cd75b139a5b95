-- ===== src/Mvba/Cbc/Shows.antt =====
-- core/mvba/consensus/cbc.go: what an observer that does not look at started goroutines sees of a task.
use bft_mvba.Base.{
  Bool-cases, inl, inr, not, ◌==◌, List, [], ◌∷◌, ◌++◌, Option, none, some, Outcome, ok, err, panic,
  Int64, ◌≡◌, refl, ◌∙◌,
}
use bft_mvba.Committee.{NodeId}
use bft_mvba.Methods.{Identity, gather, gather-append}
use bft_mvba.Mvba.Messages.{Uint8, Block, Proposal, Commitment, Ready, Final}
use bft_mvba.Mvba.Effects.{Effect, go_cbc, CbcTask, data_cbc, commit_cbc}
use bft_mvba.Mvba.Cbc.Defs.{
  Cbc, go_readys, go_finals, release, make_vote, with_vote, hold_block, process_proposal,
  process_commitment,
}

-- What a task did, as far as it came.
abbrev pub done_by : Outcome (Cbc × List Effect) → List Effect
done_by (ok (s, es)) = es
done_by (err _) = []
done_by panic = []

module _ {A : Type 0} (f : Effect → List A)
    (idle : (e : Int64) (n : NodeId) (t : Uint8) (k : CbcTask) → f (go_cbc e n t k) ≡ []) where
  gather-go_finals : (s : Cbc) (t : Uint8) (fs : List Final) → gather f (go_finals s t fs) ≡ []
  gather-go_finals s t [] = refl
  gather-go_finals s t (x ∷ fs) =
      rw (idle s.epoch s.proposer t (CbcTask.final x)) (gather-go_finals s t fs)

  gather-go :
      (s : Cbc) (t : Uint8) (rs : List Ready) (fs : List Final)
      → gather f (go_readys s t rs ++ go_finals s t fs) ≡ []
  gather-go s t [] fs = gather-go_finals s t fs
  gather-go s t (r ∷ rs) fs = rw (idle s.epoch s.proposer t (CbcTask.ready r)) (gather-go s t rs fs)

  -- Only the vote shows.
  pub gather-with_vote :
      (n : Identity) (t u : Uint8) (s : Cbc)
      → gather f (with_vote n u (release s t)).1 ≡ gather f (make_vote n (release s t).0 u)
  unfolding release
  gather-with_vote n t u s =
      gather-append f (go_readys s t s.unhandle_ready ++ go_finals s t s.unhandle_final)
        (make_vote n (release s t).0 u)
      ∙ rw (gather-go s t s.unhandle_ready s.unhandle_final) refl

  -- A task that shows nothing but the vote shows nothing where votes do not show.
  module _ (mute : (n : Identity) (s : Cbc) (t : Uint8) → gather f (make_vote n s t) ≡ []) where
    gather-hold_block :
        (n : Identity) (s : Cbc) (t : Uint8) (b : Option Block)
        → gather f (done_by (hold_block n s t b)) ≡ []
    gather-hold_block n s t none = refl
    gather-hold_block n s t (some b) =
        let held : Cbc = record s { block_hash = _ } in
        gather-with_vote n t data_cbc held ∙ mute n (release held t).0 data_cbc

    pub gather-process_proposal :
        (n : Identity) (s : Cbc) (t : Uint8) (p : Proposal)
        → gather f (done_by (process_proposal n s t p)) ≡ []
    unfolding process_proposal
    gather-process_proposal n s t p = elim (Bool-cases (not (p.author == s.proposer))) [
      | inl foreign ↦ rw foreign refl
      | inr mine ↦ rw mine (gather-hold_block n s t p.b)
    ]

    pub gather-process_commitment :
        (n : Identity) (s : Cbc) (t : Uint8) (m : Commitment)
        → gather f (process_commitment n s t m).1 ≡ []
    unfolding process_commitment
    gather-process_commitment n s t m = elim (Bool-cases (not (m.author == s.proposer))) [
      | inl foreign ↦ rw foreign refl
      | inr mine ↦ rw mine (
          let held : Cbc = record s { commitment = m.c } in
          gather-with_vote n t commit_cbc held ∙ mute n (release held t).0 commit_cbc)
    ]
