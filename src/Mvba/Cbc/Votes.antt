-- ===== src/Mvba/Cbc/Votes.antt =====
-- core/mvba/consensus/cbc.go: the votes on proposals.
use bft_mvba.Base.{List, [], ◌∷◌, ◌++◌, some, ok, ◌≡◌, refl, ◌∙◌, arith}
use bft_mvba.Methods.{Identity, gather, gather-append}
use bft_mvba.Mvba.Messages.{Uint8, Block, block_hash, Proposal, Ready, Final, new_ready, Messgae}
use bft_mvba.Mvba.Effects.{Effect, send, loopback, data_cbc}
use bft_mvba.Mvba.Cbc.Defs.{
  Cbc, go_readys, go_finals, release, make_vote, hold_block, process_proposal,
}

abbrev vote_in : Messgae → List Ready
vote_in (Messgae.ready r) = r ∷ []
vote_in (Messgae.vote _) = []
vote_in _ = []

abbrev vote_of : Effect → List Ready
vote_of (send _ _ m) = vote_in m
vote_of (loopback m) = vote_in m
vote_of _ = []

-- The votes that the node gave, to others or to itself.
abbrev pub votes : List Effect → List Ready
votes es = gather vote_of es

votes-go_finals : (s : Cbc) (t : Uint8) (fs : List Final) → votes (go_finals s t fs) ≡ []
votes-go_finals s t [] = refl
votes-go_finals s t (f ∷ fs) = votes-go_finals s t fs

votes-go_readys : (s : Cbc) (t : Uint8) (rs : List Ready) → votes (go_readys s t rs) ≡ []
votes-go_readys s t [] = refl
votes-go_readys s t (r ∷ rs) = votes-go_readys s t rs

-- The instance and the effects of a proposal of the instance's proposer.
accepted :
    (n : Identity) (s : Cbc) (t : Uint8) (p : Proposal) (b : Block)
    → p.author ≡ s.proposer
    → p.b ≡ some b
    → process_proposal n s t p ≡ hold_block n s t (some b)
unfolding process_proposal
accepted n s t p b mine there = ground arith

abbrev holding : Identity → Cbc → Block → Cbc
holding n s b = record s { block_hash = some (block_hash n.sig_service b) }

abbrev released : Identity → Cbc → Block → Cbc
released n s b = record (holding n s b) { unhandle_ready = []; unhandle_final = [] }

abbrev outgoing : Identity → Cbc → Uint8 → Block → List Effect
outgoing n s t b =
    (go_readys (holding n s b) t s.unhandle_ready ++ go_finals (holding n s b) t s.unhandle_final)
    ++ make_vote n (released n s b) data_cbc

votes-outgoing :
    (n : Identity) (s : Cbc) (t : Uint8) (b : Block)
    → votes (outgoing n s t b) ≡ new_ready n.sig_service n.name s.proposer s.epoch data_cbc ∷ []
votes-outgoing n s t b =
    let rs = go_readys (holding n s b) t s.unhandle_ready in
    let fs = go_finals (holding n s b) t s.unhandle_final in
    gather-append vote_of (rs ++ fs) (make_vote n (released n s b) data_cbc)
    ∙ rw
        (
          gather-append vote_of rs fs,
          votes-go_readys (holding n s b) t s.unhandle_ready,
          votes-go_finals (holding n s b) t s.unhandle_final,
        )
        (unfold make_vote in ground arith)

-- Any proposal of a broadcast's proposer with a block, the first one or a later one with another
-- block, is taken: the instance holds the hash of its block in place of the one before, and gives
-- a vote again.
pub every_proposal_voted :
    (n : Identity) (s : Cbc) (t : Uint8) (p : Proposal) (b : Block)
    → p.author ≡ s.proposer
    → p.b ≡ some b
    → (u : Cbc) × (es : List Effect) × (process_proposal n s t p ≡ ok (u, es))
      × (u.block_hash ≡ some (block_hash n.sig_service b))
      × (votes es ≡ new_ready n.sig_service n.name s.proposer s.epoch data_cbc ∷ [])
every_proposal_voted n s t p b mine there = (
  released n s b,
  outgoing n s t b,
  accepted n s t p b mine there ∙ unfold release in refl,
  refl,
  votes-outgoing n s t b,
)
