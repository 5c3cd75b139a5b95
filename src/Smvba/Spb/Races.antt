-- ===== src/Smvba/Spb/Races.antt =====
-- core/smvba/consensus/spb.go: the first-phase votes under any interleaving of the goroutines.
use bft_mvba.Methods.{Identity, run_all}
use bft_mvba.Base.{
  ℕ, ◌+◌, List, [], ◌∷◌, ◌++◌, length, none, some, ok, ◌≡◌, ◌≢◌, refl, arith, if◌then◌else◌, ◌==◌,
}
use bft_mvba.Threads.{
  Running, Step, enter, go_on, run_step, total, points_of, Balance, Reaches-balance, entered,
}
use bft_mvba.Smvba.Messages.{Block, block_hash, SpbProposal, SpbVote, spb_one_phase}
use bft_mvba.Smvba.Signing.{Messgae, new_spb_vote, new_spb_proposal, new_finish}
use bft_mvba.Smvba.Effects.{Effect, send, loopback, go_proposal, go_vote, to_commit}
use bft_mvba.Smvba.Spb.Defs.{Spb, go_proposals, go_votes, get_block_hash, reply}
use bft_mvba.Smvba.Spb.Runs.{Task, proposal, vote}
use bft_mvba.Smvba.Spb.Steps.{
  Point, storing, voting, releasing, keeping_proposal, locking, keeping_vote, counting, completing,
  look, advance, Reaches,
}

abbrev in_first_phase : Messgae → ℕ
in_first_phase (Messgae.spb_vote v) = if v.phase == spb_one_phase then 1 else 0
in_first_phase (Messgae.spb_proposal _) = 0
in_first_phase (Messgae.finish _) = 0
in_first_phase _ = 0

abbrev is_first_vote : Effect → ℕ
is_first_vote (send _ _ m) = in_first_phase m
is_first_vote (loopback m) = in_first_phase m
is_first_vote (go_proposal _ _ _ _) = 0
is_first_vote (go_vote _ _ _ _) = 0
is_first_vote (to_commit _) = 0

-- How many first-phase votes the node gave.
abbrev pub first_votes : List Effect → ℕ
first_votes = total is_first_vote

-- Is the goroutine past the look at the block, and has not voted yet?
abbrev is_past_look : Point → ℕ
is_past_look (storing p b) = if p.phase == spb_one_phase then 1 else 0
is_past_look (voting p d) = if p.phase == spb_one_phase then 1 else 0
is_past_look (locking p) = if p.phase == spb_one_phase then 1 else 0
is_past_look (keeping_proposal _) = 0
is_past_look (keeping_vote _) = 0
is_past_look (counting _) = 0
is_past_look (completing _) = 0
is_past_look releasing = 0

abbrev pub past_look : List Point → ℕ
past_look = total is_past_look

first_votes-go :
    (s : Spb) (ps : List SpbProposal) (vs : List SpbVote)
    → first_votes (go_proposals s ps ++ go_votes s vs) ≡ 0
first_votes-go s [] [] = refl
first_votes-go s [] (v ∷ vs) = omega (arith, first_votes-go s [] vs)
first_votes-go s (p ∷ ps) vs = omega (arith, first_votes-go s ps vs)

abbrev IsHeld : ℕ → Spb → Type 0
IsHeld k s = get_block_hash s ≢ none

IsHeld-look : (s : Spb) (t : Task) → IsHeld 0 s → IsHeld 0 (look t s).1
unfolding look get_block_hash
IsHeld-look s (proposal p) h e = ground arith
IsHeld-look s (vote v) h e = ground arith

IsHeld-advance : (n : Identity) (s : Spb) (p : Point) → IsHeld 0 s → IsHeld 0 (advance n p s).1
unfolding advance get_block_hash
IsHeld-advance n s (storing p b) h e = ground arith
IsHeld-advance n s (voting p d) h e = ground arith
IsHeld-advance n s releasing h e = ground arith
IsHeld-advance n s (keeping_proposal p) h e = ground arith
IsHeld-advance n s (locking p) h e = ground arith
IsHeld-advance n s (keeping_vote v) h e = ground arith
IsHeld-advance n s (counting v) h e = ground arith
IsHeld-advance n s (completing k) h e = ground arith

even-look :
    (s : Spb) (t : Task)
    → IsHeld 0 s
    → first_votes (look t s).2 + past_look (points_of (look t s).0) ≡ 0
unfolding look get_block_hash
even-look s (proposal p) h = ground arith
even-look s (vote v) h = ground arith

even-advance :
    (n : Identity) (s : Spb) (p : Point)
    → first_votes (advance n p s).2 + past_look (points_of (advance n p s).0) ≡ is_past_look p
unfolding advance new_spb_vote new_spb_proposal new_finish
even-advance n s (storing p b) = ground arith
even-advance n s (voting p d) = ground arith
even-advance n s releasing = omega (arith, first_votes-go s s.unhandle_proposal s.unhandle_vote)
even-advance n s (keeping_proposal p) = ground arith
even-advance n s (locking p) = ground arith
even-advance n s (keeping_vote v) = ground arith
even-advance n s (counting v) = ground arith
even-advance n s (completing k) = ground arith

balance :
    (n : Identity) (bound : ℕ)
    → Balance look (advance n) bound IsHeld (λ s. 0) is_past_look is_first_vote (λ t. 0)
balance n bound = record {
  waits = λ k s h. h;
  enters = λ k s t lt h. IsHeld-look s t h;
  advances = λ k s p lt h. IsHeld-advance n s p h;
  balance_first = λ k s t lt h. omega (arith, even-look s t h);
  balance_next = λ k s p lt h. omega (arith, even-advance n s p);
}

-- Over any interleaving of the goroutines of an instance, cut at what they share, from any state
-- in which the instance holds a block: it goes on holding one, and the first-phase votes that the
-- node gives and those that goroutines still have to give together are as many as there were to
-- give at the start, so no proposal that is looked at later is voted for.
pub late_proposals_not_voted :
    (n : Identity) {r t : Running Spb Point} {ks : List (Step Task)} {es : List Effect}
    → Reaches n r t ks es
    → get_block_hash r.shared ≢ none
    → (get_block_hash t.shared ≢ none) × (first_votes es + past_look t.points ≡ past_look r.points)
late_proposals_not_voted n {r} {t} {ks} {es} reach held =
    let (still, even) =
      Reaches-balance look (advance n) (balance n (length ks)) reach (omega arith) held in
    (still, omega (arith, even, entered_none ks))
  where
    entered_none : (ks : List (Step Task)) → entered (λ t. 0) ks ≡ 0
    entered_none [] = refl
    entered_none (enter t ∷ ks) = omega (arith, entered_none ks)
    entered_none (go_on i ∷ ks) = entered_none ks

-- Both goroutines look before either of them writes.
abbrev pub overlap : SpbProposal → SpbProposal → List (Step Task)
overlap p q = go_on 0 ∷ go_on 0 ∷ go_on 0 ∷ go_on 0 ∷ enter (proposal q) ∷ enter (proposal p) ∷ []

-- The vote on a block of a proposal.
abbrev pub vote_for : Identity → Spb → SpbProposal → Block → Effect
vote_for n s p b = reply n s (
    new_spb_vote n.sig_service n.name p.author (block_hash n.sig_service b) s.epoch s.round p.phase)

look-block :
    (s : Spb) (p : SpbProposal) (b : Block)
    → s.block_hash ≡ none
    → p.phase ≡ spb_one_phase
    → p.b ≡ some b
    → b.proposer ≡ s.proposer
    → look (proposal p) s ≡ (ok (storing p b ∷ []), s, [])
unfolding look
look-block s p b none_yet first has_b by_b = ground (arith, none_yet, first, has_b, by_b)

-- Where an instance holds no block, two first-phase proposals of blocks of its proposer can run
-- in between each other, both past the look at the block hash before either writes it, so that
-- the node votes for both blocks, in all once for each, and the instance holds the second one.
pub two_blocks_voted :
    (n : Identity) (s : Spb) (p q : SpbProposal) (b c : Block)
    → s.block_hash ≡ none
    → p.phase ≡ spb_one_phase
    → q.phase ≡ spb_one_phase
    → p.b ≡ some b
    → q.b ≡ some c
    → b.proposer ≡ s.proposer
    → c.proposer ≡ s.proposer
    → let (r, es) =
        run_all (run_step look (advance n)) (record { shared = s; points = [] }) (overlap p q) in
      (es ≡ vote_for n s p b ∷ vote_for n s q c ∷ [])
      × (r.shared ≡ record s { block_hash = some (block_hash n.sig_service c) })
unfolding run_all run_step advance
two_blocks_voted n s p q b c none_yet first second has_b has_c by_b by_c =
    rw
      (
        look-block s p b none_yet first has_b by_b,
        look-block s q c none_yet second has_c by_c,
        first,
        second,
      )
      (refl, refl)
