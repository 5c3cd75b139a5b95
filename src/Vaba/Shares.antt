-- ===== src/Vaba/Shares.antt =====
-- core/vaba/consensus/core.go: the shares of the election that the handlers send.
use bft_mvba.Methods.{
  core, IsTrace, Respects, Respects-if, Respects-next, Respects-bind, return_nil, ◌>>=◌, ◌>>◌,
}
use bft_mvba.Base.{
  ℕ, ◌+◌, ◌==◌, ◌&&◌, inc, List, [], ◌∷◌, ◌++◌, Option, none, some, err, panic, not, Bool,
  if◌then◌else◌, Int64, ◌≡◌, refl, arith, Outcome, ok,
}
use bft_mvba.Committee.{NodeId, hight_threshold}
use bft_mvba.Committor.{Committor}
use bft_mvba.Crypto.{Digest}
use bft_mvba.Vaba.Elector.{leader}
use bft_mvba.Vaba.Messages.{
  Block, Proposal, ViewChange, Halt, Messgae, phase_one_falg, new_elect_share,
}
use bft_mvba.Vaba.Effects.{Effect, send}
use bft_mvba.Vaba.Commits
use bft_mvba.Vaba.Core.{
  Services, Core, M, message_filter, commit_call, committed, commit_effects, try_block,
  output_found, output_block, set_committed, tell_halt, advance_next_epoch, ignore_error,
  finish_epoch, empty_block, give_up_epoch, keep_lock, count_view_change, handle_view_change,
  handle_halt, late_block, accept_proposal, handle_proposal, handle_vote, handle_done,
  handle_skip_share, handle_skip, handle_elect_share, dispatch, put_back_own, store_block,
  get_pb_instance, generator_block, set_skip, invoke_elect, skip_on, invoke_view_change,
}

abbrev share_in : Int64 → Effect → ℕ
share_in e (send _ _ (Messgae.elect_share m)) = if m.epoch == e then 1 else 0
share_in e (send _ _ (Messgae.vote _)) = 0
share_in e _ = 0

-- How often everybody is sent a share of the election of the epoch.
abbrev pub shares : Int64 → List Effect → ℕ
shares e [] = 0
shares e (x ∷ xs) = share_in e x + shares e xs

shares-append : (e : Int64) (es fs : List Effect) → shares e (es ++ fs) ≡ shares e es + shares e fs
shares-append e [] fs = omega arith
shares-append e (x ∷ es) fs = omega (arith, shares-append e es fs)

abbrev pub as_number : Bool → ℕ
as_number b = if b then 1 else 0

-- A share goes out where the flag of the epoch is set, and the flag stays.
abbrev pub Once : Int64 → Core → Core → List Effect → Type 0
Once e c d es = shares e es + as_number (c.elect_flag e) ≡ as_number (d.elect_flag e)

pub Once-IsTrace : (e : Int64) → IsTrace (Once e)
Once-IsTrace e = record {
  still = λ c. omega arith;
  chain = λ c d k es fs h g. omega (arith, shares-append e es fs);
}

shares-commit_effects : (e : Int64) (bs : List Block) → shares e (commit_effects bs) ≡ 0
shares-commit_effects e [] = refl
shares-commit_effects e (b ∷ bs) = omega (arith, shares-commit_effects e bs)

module _ (sv : Services) (e : Int64) where
  Once-committed : (r : Outcome (List Block × Committor Block)) → Respects (Once e) (committed r)
  Once-committed (ok (bs, k)) c = omega (arith, shares-commit_effects e bs)
  Once-committed (err x) c = omega arith
  Once-committed panic c = omega arith

  Once-commit_call : (b : Option Block) → Respects (Once e) (commit_call b)
  unfolding commit_call
  Once-commit_call b c = Once-committed (Commits.commit_block c.commitor b) c

  Once-output_found : (i : Int64) (b : Option Block) → Respects (Once e) (output_found sv i b)
  unfolding get_pb_instance
  Once-output_found i none = λ c. omega arith
  Once-output_found i (some b) =
      Respects-next (Once-IsTrace e) (commit_call (some (record b { epoch = i })))
        (core >>= λ c. if not (b.proposer == c.name) then put_back_own sv i else return_nil)
        (Once-commit_call (some (record b { epoch = i }))) (λ c. ground arith)

  Once-output_block : (i : Int64) (d : Digest) → Respects (Once e) (output_block sv i d)
  unfolding output_block
  Once-output_block i d =
      Respects-bind (Once-IsTrace e) (try_block sv d) (output_found sv i) (λ c. omega arith)
        (Once-output_found i)

  Once-advance :
      (i : Int64) (h : Option Digest) → Respects (Once e) (ignore_error (advance_next_epoch sv i h))
  unfolding advance_next_epoch generator_block
  Once-advance i none c = ground arith
  Once-advance i (some d) c = ground arith

  Once-finish_epoch :
      (i : Int64) (l : NodeId) (d : Option Digest) → Respects (Once e) (finish_epoch sv i l d)
  Once-finish_epoch i l none = λ c. omega arith
  Once-finish_epoch i l (some d) =
      let next : M (Unit {0}) = ignore_error (advance_next_epoch sv (inc i) none) in
      let t = Once-IsTrace e in
      Respects-next t (output_block sv i d) (set_committed i >> (tell_halt l d i >> next))
        (Once-output_block i d)
        (Respects-next t (set_committed i) (tell_halt l d i >> next) (λ c. omega arith)
          (Respects-next t (tell_halt l d i) next (λ c. omega arith) (Once-advance (inc i) none)))

  Once-give_up_epoch : (v : ViewChange) → Respects (Once e) (give_up_epoch sv v)
  Once-give_up_epoch v c =
      let t = Once-IsTrace e in
      let give : M (Unit {0}) = commit_call (some (empty_block v.epoch)) in
      let next : M (Unit {0}) = ignore_error (advance_next_epoch sv (inc v.epoch) v.block_hash) in
      Respects-if (Once e)
        (not (c.commit_flag v.epoch) && c.view_change_cnts v.epoch == hight_threshold c.committee)
        (set_committed v.epoch >> (give >> next)) return_nil
        (λ _.
          Respects-next t (set_committed v.epoch) (give >> next) (λ k. omega arith)
            (Respects-next t give next (Once-commit_call (some (empty_block v.epoch)))
              (Once-advance (inc v.epoch) v.block_hash)))
        (λ _ k. omega arith) c

  Once-handle_view_change : (v : ViewChange) → Respects (Once e) (handle_view_change sv v)
  unfolding handle_view_change
  Once-handle_view_change v c =
      let t = Once-IsTrace e in
      let finish : M (Unit {0}) =
        if v.is_commit then finish_epoch sv v.epoch v.leader v.block_hash else return_nil in
      let give_up : M (Unit {0}) = give_up_epoch sv v in
      let handling : M (Unit {0}) =
        count_view_change v.epoch >> (finish >> (keep_lock v >> give_up)) in
      Respects-if (Once e) (message_filter c v.epoch) return_nil
        (if c.commit_flag v.epoch then return_nil else handling) (λ _ k. omega arith)
        (λ _.
          Respects-if (Once e) (c.commit_flag v.epoch) return_nil handling (λ _ k. omega arith)
            (λ _.
              Respects-next t (count_view_change v.epoch) (finish >> (keep_lock v >> give_up))
                (λ k. omega arith)
                (Respects-next t finish (keep_lock v >> give_up)
                  (Respects-if (Once e) v.is_commit (finish_epoch sv v.epoch v.leader v.block_hash)
                    return_nil (λ _. Once-finish_epoch v.epoch v.leader v.block_hash)
                    (λ _ k. omega arith))
                  (Respects-next t (keep_lock v) give_up (λ k. ground arith)
                    (Once-give_up_epoch v)))))
        c

  Once-handle_halt : (h : Halt) → Respects (Once e) (handle_halt sv h)
  unfolding handle_halt
  Once-handle_halt h c =
      let finish : M (Unit {0}) = finish_epoch sv h.epoch h.leader (some h.block_hash) in
      Respects-if (Once e) (message_filter c h.epoch) return_nil
        (if c.commit_flag h.epoch then return_nil else finish) (λ _ k. omega arith)
        (λ _.
          Respects-if (Once e) (c.commit_flag h.epoch) return_nil finish (λ _ k. omega arith)
            (λ _. Once-finish_epoch h.epoch h.leader (some h.block_hash)))
        c

  Once-handle_proposal : (p : Proposal) → Respects (Once e) (handle_proposal sv p)
  unfolding handle_proposal store_block get_pb_instance
  Once-handle_proposal p =
      Respects-next (Once-IsTrace e) (late_block p)
        (core >>= λ c. if message_filter c p.epoch then return_nil else accept_proposal sv p)
        (λ c.
          Respects-if (Once e)
            (p.phase == phase_one_falg
              && c.commit_flag p.epoch
              && leader c.elector p.epoch == p.author)
            (commit_call p.b) return_nil (λ _. Once-commit_call p.b) (λ _ k. omega arith) c)
        (λ c. ground arith)

  Once-invoke_elect : (i : Int64) → Respects (Once e) (invoke_elect i)
  unfolding invoke_elect new_elect_share
  Once-invoke_elect i c = ground arith

  Once-skip_on : (i : Int64) → Respects (Once e) (skip_on i)
  unfolding skip_on set_skip invoke_elect new_elect_share
  Once-skip_on i c = ground arith

  pub Once-dispatch : (m : Messgae) → Respects (Once e) (dispatch sv m)
  unfolding dispatch handle_vote handle_done handle_skip_share handle_skip handle_elect_share
      invoke_view_change get_pb_instance skip_on set_skip invoke_elect new_elect_share
  Once-dispatch (Messgae.proposal m) = Once-handle_proposal m
  Once-dispatch (Messgae.vote m) = λ c. ground arith
  Once-dispatch (Messgae.done m) = λ c. ground arith
  Once-dispatch (Messgae.skip_share m) = λ c. ground arith
  Once-dispatch (Messgae.skip m) = λ c. ground arith
  Once-dispatch (Messgae.elect_share m) = λ c. ground arith
  Once-dispatch (Messgae.view_change m) = Once-handle_view_change m
  Once-dispatch (Messgae.halt m) = Once-handle_halt m
