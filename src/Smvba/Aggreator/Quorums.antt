-- ===== src/Smvba/Aggreator/Quorums.antt =====
-- core/smvba/consensus/aggreator.go over whole runs: how often a counter signals its quorum, and
-- what the senders that it counted are.
use bft_mvba.Base.{
  ℕ, suc, ◌+◌, ◌≤◌, ◌≡◌, ◌≢◌, Bool, true, false, ◌&&◌, List, [], ◌∷◌, length, Outcome, ok, err,
  panic, if◌then◌else◌, ◌==◌, leb, ltb, has, Int8, arith,
}
use bft_mvba.Committee.{NodeId, Committee, hight_threshold, low_threshold, size}
use bft_mvba.Smvba.Messages.{Finish, Done}
use bft_mvba.Smvba.Aggreator.Defs.{
  FinishAggreator, new_finish_aggreator, append_finish, DoneAggreator, new_done_aggreator,
  append_done, done_high_flag, done_low_flag,
}

-- How many authors of the list are new, each counted once: behind those already seen.
abbrev pub fresh_count : List NodeId → List NodeId → ℕ
fresh_count seen [] = 0
fresh_count seen (a ∷ rest) =
    if has seen a then fresh_count seen rest else suc (fresh_count (a ∷ seen) rest)

-- 1 if the count passes the threshold on its way, else 0.
abbrev pub crossed : ℕ → ℕ → ℕ → ℕ
crossed t before after = if ltb before t && leb t after then 1 else 0

abbrev pub finish_authors : List Finish → List NodeId
finish_authors [] = []
finish_authors (m ∷ ms) = m.author ∷ finish_authors ms

abbrev pub is_signal : Outcome Bool → ℕ
is_signal (ok true) = 1
is_signal (ok false) = 0
is_signal (err _) = 0
is_signal panic = 0

-- The signals that a run of messages draws from one counter, and the counter after it.
unfoldable pub finish_signals : Committee → FinishAggreator → List Finish → ℕ × FinishAggreator
finish_signals c f [] = (0, f)
finish_signals c f (m ∷ ms) =
    let (r, f') = append_finish c f m in
    let (n, f'') = finish_signals c f' ms in (is_signal r + n, f'')

finish_signals-crossed :
    (c : Committee) (f : FinishAggreator) (ms : List Finish)
    → (finish_signals c f ms).0
      ≡ crossed
          (hight_threshold c)
          (length f.authors)
          (length f.authors + fresh_count f.authors (finish_authors ms))
unfolding finish_signals append_finish
finish_signals-crossed c f [] = ground arith
finish_signals-crossed c f (m ∷ ms) = ground (
  arith,
  finish_signals-crossed c f ms,
  finish_signals-crossed c (record f { authors = m.author ∷ f.authors }) ms,
)

-- A counter of `Finish` votes that starts empty signals exactly once in a run that holds votes of
-- `HightThreshold` different authors, and never in another run, however votes are repeated.
pub finish_signals_once :
    (c : Committee) (ms : List Finish)
    → (finish_signals c new_finish_aggreator ms).0
      ≡ (if leb (hight_threshold c) (fresh_count [] (finish_authors ms)) then 1 else 0)
unfolding hight_threshold
finish_signals_once c ms = ground (arith, finish_signals-crossed c new_finish_aggreator ms)

abbrev pub done_authors : List Done → List NodeId
done_authors [] = []
done_authors (m ∷ ms) = m.author ∷ done_authors ms

abbrev is_flag : Int8 → Outcome Int8 → ℕ
is_flag flag (ok r) = if r == flag then 1 else 0
is_flag flag (err _) = 0
is_flag flag panic = 0

-- How often a run draws one flag from the counter, and the counter after it.
unfoldable pub done_flags : Int8 → Committee → DoneAggreator → List Done → ℕ × DoneAggreator
done_flags flag c d [] = (0, d)
done_flags flag c d (m ∷ ms) =
    let (r, d') = append_done c d m in
    let (n, d'') = done_flags flag c d' ms in (is_flag flag r + n, d'')

done_low-crossed :
    (c : Committee) (d : DoneAggreator) (ms : List Done)
    → (done_flags done_low_flag c d ms).0
      ≡ crossed
          (low_threshold c)
          (length d.authors)
          (length d.authors + fresh_count d.authors (done_authors ms))
unfolding done_flags append_done
done_low-crossed c d [] = ground arith
done_low-crossed c d (m ∷ ms) = ground (
  arith,
  done_low-crossed c d ms,
  done_low-crossed c (record d { authors = m.author ∷ d.authors }) ms,
)

done_high-crossed :
    (c : Committee) (d : DoneAggreator) (ms : List Done)
    → low_threshold c ≢ hight_threshold c
    → (done_flags done_high_flag c d ms).0
      ≡ crossed
          (hight_threshold c)
          (length d.authors)
          (length d.authors + fresh_count d.authors (done_authors ms))
unfolding done_flags append_done
done_high-crossed c d [] apart = ground arith
done_high-crossed c d (m ∷ ms) apart = ground (
  arith,
  done_high-crossed c d ms apart,
  done_high-crossed c (record d { authors = m.author ∷ d.authors }) ms apart,
)

-- In a committee of four or more, a counter of `Done` votes that starts empty gives the low flag
-- once if `LowThreshold` different authors vote and the high flag once if `HightThreshold` do,
-- and neither otherwise.
pub done_flags_once :
    (c : Committee) (ms : List Done)
    → 4 ≤ size c
    → ((done_flags done_low_flag c new_done_aggreator ms).0
        ≡ (if leb (low_threshold c) (fresh_count [] (done_authors ms)) then 1 else 0))
      × ((done_flags done_high_flag c new_done_aggreator ms).0
          ≡ (if leb (hight_threshold c) (fresh_count [] (done_authors ms)) then 1 else 0))
unfolding hight_threshold low_threshold size
done_flags_once c ms large = (
  ground (arith, done_low-crossed c new_done_aggreator ms),
  ground (arith, done_high-crossed c new_done_aggreator ms (omega arith)),
)

done_high_never :
    (c : Committee) (d : DoneAggreator) (ms : List Done)
    → low_threshold c ≡ hight_threshold c
    → (done_flags done_high_flag c d ms).0 ≡ 0
unfolding done_flags append_done
done_high_never c d [] same = ground arith
done_high_never c d (m ∷ ms) same = ground (
  arith,
  done_high_never c d ms same,
  done_high_never c (record d { authors = m.author ∷ d.authors }) ms same,
)

-- In a committee of at most three members no run of `Done` votes ever gives the high flag.
pub done_high_unreachable :
    (c : Committee) (ms : List Done)
    → size c ≤ 3
    → (done_flags done_high_flag c new_done_aggreator ms).0 ≡ 0
unfolding hight_threshold low_threshold size
done_high_unreachable c ms few = done_high_never c new_done_aggreator ms (omega arith)
