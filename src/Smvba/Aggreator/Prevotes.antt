-- ===== src/Smvba/Aggreator/Prevotes.antt =====
-- core/smvba/consensus/aggreator.go: the prevotes of a round, and which final votes they draw.
use bft_mvba.Base.{
  ℕ, ◌+◌, ◌^◌, ◌<◌, ◌≡◌, ◌≢◌, refl, Bool, true, false, not, ◌||◌, List, [], ◌∷◌, Outcome, ok, err,
  panic, if◌then◌else◌, ◌==◌, has, Int8, arith, inc, slt,
}
use bft_mvba.Committee.{NodeId, Committee, hight_threshold}
use bft_mvba.Smvba.Messages.{Prevote, vote_flag_no}
use bft_mvba.Smvba.Aggreator.Defs.{
  PreVoteAggreator, new_prevote_aggreator, append_prevote, action_yes, action_no,
}

-- Does the run hold a vote for yes, or how many against? Each author counts by its first vote.
abbrev pub some_yes : List NodeId → List Prevote → Bool
some_yes seen [] = false
some_yes seen (m ∷ ms) =
    if has seen m.author
    then some_yes seen ms
    else not (m.flag == vote_flag_no) || some_yes (m.author ∷ seen) ms

abbrev pub draws : Int8 → Outcome Int8 → ℕ
draws action (ok r) = if r == action then 1 else 0
draws action (err _) = 0
draws action panic = 0

-- How often a run draws one action from the counter.
unfoldable pub prevote_draws : Int8 → Committee → PreVoteAggreator → List Prevote → ℕ
prevote_draws action c p [] = 0
prevote_draws action c p (m ∷ ms) =
    draws action (append_prevote c p m).0 + prevote_draws action c (append_prevote c p m).1 ms

yes_never_again :
    (c : Committee) (p : PreVoteAggreator) (ms : List Prevote)
    → p.flag ≡ true
    → prevote_draws action_yes c p ms ≡ 0
unfolding prevote_draws append_prevote
yes_never_again c p [] raised = refl
yes_never_again c p (m ∷ ms) raised = ground (arith, yes_never_again c (append_prevote c p m).1 ms)

yes_draws :
    (c : Committee) (p : PreVoteAggreator) (ms : List Prevote)
    → p.flag ≡ false
    → p.yes_nums ≡ 0
    → prevote_draws action_yes c p ms ≡ (if some_yes p.authors ms then 1 else 0)
unfolding prevote_draws append_prevote inc slt
yes_draws c p [] lowered none_yet = refl
yes_draws c p (m ∷ ms) lowered none_yet =
    ground (
      arith,
      yes_draws c (append_prevote c p m).1 ms,
      yes_never_again c (append_prevote c p m).1 ms,
    )

-- A counter of prevotes that starts empty draws a final vote for yes exactly once if the first
-- vote of some author is for yes, and never otherwise.
pub prevote_yes_once :
    (c : Committee) (ms : List Prevote)
    → prevote_draws action_yes c new_prevote_aggreator ms ≡ (if some_yes [] ms then 1 else 0)
prevote_yes_once c ms = yes_draws c new_prevote_aggreator ms refl refl

-- A counter that has seen no yes, and to which a no of a new author gives `HightThreshold` of
-- them, fewer than 2 ^ 63, draws a final vote for no from that one, and from a next yes of
-- another new author one for yes as well.
pub prevote_draws_both :
    (c : Committee) (p : PreVoteAggreator) (m n : Prevote)
    → p.flag ≡ false
    → p.yes_nums ≡ 0
    → p.no_nums + 1 ≡ hight_threshold c
    → hight_threshold c < 2 ^ 63
    → has p.authors m.author ≡ false
    → m.flag ≡ vote_flag_no
    → has (m.author ∷ p.authors) n.author ≡ false
    → n.flag ≢ vote_flag_no
    → ((append_prevote c p m).0 ≡ ok action_no)
      × ((append_prevote c (append_prevote c p m).1 n).0 ≡ ok action_yes)
unfolding append_prevote inc slt
prevote_draws_both c p m n lowered none_yet last small new_m no_m new_n yes_n =
    (ground arith, ground arith)
