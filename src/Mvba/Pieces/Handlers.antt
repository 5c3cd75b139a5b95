-- ===== src/Mvba/Pieces/Handlers.antt =====
-- core/mvba/consensus/core.go: the handlers of the messages keep to what their pieces keep to.
use bft_mvba.Base.{
  List, [], ◌∷◌, Option, none, some, Outcome, ok, err, err_other, Bool, ◌==◌, not, if◌then◌else◌,
  Int64,
}
use bft_mvba.Committee.{NodeId}
use bft_mvba.Methods.{
  mixed-bind, mixed-next, Respects, Respects-bind, Respects-next, Respects-if, ◌>>=◌, ◌>>◌, emit,
  return_nil, lift,
}
use bft_mvba.Mvba.Messages.{
  verify_message, Commitment, Ready, Final, AbaVal, AbaMux, AbaHalt, Uint8, flag_yes, flag_no,
  Proposal, ElectShare, Vote, CoinShare, Messgae,
}
use bft_mvba.Mvba.Effects.{Effect, go_cbc, go_aba, CbcTask, AbaTask, data_cbc, commit_cbc}
use bft_mvba.Mvba.Counters.{add_vote, add_coin_share, action_no, action_one}
use bft_mvba.Mvba.Commits.{commit_leader}
use bft_mvba.Mvba.Core.{
  receive, Services, Core, M, commit_block, store_block, get_cbc_instance, get_aba_instance,
  message_filter, aggregated, elected, invoke_stage_two, invoke_aba_val, start_cbc, start_aba,
  late_block, handle_proposal, handle_commitment, handle_ready, handle_final, handle_elect_share,
  handle_vote, count_vote, handle_aba_val, handle_aba_mux, handle_coin_share, on_coin,
  handle_aba_halt, dispatch, check_vote,
}
use bft_mvba.Mvba.Pieces.Defs.{Pieces}

module _ {ℓ} {sv : Services} {Q R : Core → Core → List Effect → Type ℓ} (p : Pieces sv Q R) where
  pub still : {A : Type 0} (r : Outcome A) → Respects Q (lift r)
  still r c = p.trace.still c

  pub weak : {A : Type 0} (m : M A) → Respects Q m → Respects R m
  weak m h c = p.first.stop c (m c).1 (m c).2 (h c)

  -- What a handler does behind its filter.
  filtered :
      (e : Int64) (m : Core → M (Unit {0}))
      → ((c : Core) → Respects R (m c))
      → Respects R (λ c. (if message_filter c e then return_nil else m c) c)
  filtered e m h c =
      Respects-if R (message_filter c e) return_nil (m c) (λ _. weak return_nil (still (ok tt)))
        (λ _. h c) c

  quiet_filtered :
      (e : Int64) (m : Core → M (Unit {0}))
      → ((c : Core) → Respects Q (m c))
      → Respects Q (λ c. (if message_filter c e then return_nil else m c) c)
  quiet_filtered e m h c =
      Respects-if Q (message_filter c e) return_nil (m c) (λ _. still (ok tt)) (λ _. h c) c

  start_cbc-Respects :
      (e : Int64) (n : NodeId) (t : Uint8) (k : CbcTask) → Respects Q (start_cbc e n t k)
  start_cbc-Respects e n t k =
      Respects-bind p.trace (get_cbc_instance e n t) (λ _. emit (go_cbc e n t k ∷ [])) (p.cbc e n t)
        (λ _. p.goes_cbc e n t k)

  start_aba-Respects : (e r : Int64) (k : AbaTask) → Respects Q (start_aba e r k)
  start_aba-Respects e r k =
      Respects-bind p.trace (get_aba_instance e r) (λ _. emit (go_aba e r k ∷ [])) (p.aba e r)
        (λ _. p.goes_aba e r k)

  late_block-Respects : (m : Proposal) → Respects R (late_block m)
  late_block-Respects m c =
      Respects-if R (commit_leader c.commitor m.epoch == m.author)
        (commit_block m.epoch m.author m.b) return_nil (λ _. p.commits m.epoch m.author m.b)
        (λ _. weak return_nil (still (ok tt))) c

  handle_proposal-Respects : (m : Proposal) → Respects R (handle_proposal sv m)
  unfolding handle_proposal
  handle_proposal-Respects m =
      let task = start_cbc m.epoch m.author data_cbc (CbcTask.proposal m) in
      filtered m.epoch (λ _. late_block m >> (store_block sv m.b >> task))
        (λ _.
          mixed-next p.last (late_block m) (store_block sv m.b >> task) (late_block-Respects m) (
            Respects-next p.trace (store_block sv m.b) task (p.stores m.b)
              (start_cbc-Respects m.epoch m.author data_cbc (CbcTask.proposal m))))

  handle_elect_share-Respects : (m : ElectShare) → Respects Q (handle_elect_share sv m)
  unfolding handle_elect_share
  handle_elect_share-Respects m =
      let then_vote : (Core → Bool → M (Unit {0})) =
        λ c flag. if flag then invoke_stage_two c.epoch 0 else return_nil in
      quiet_filtered m.epoch (λ c. elected sv m >>= then_vote c)
        (λ c. Respects-bind p.trace (elected sv m) (then_vote c) (p.elects m) (λ flag.
          Respects-if Q flag (invoke_stage_two c.epoch 0) return_nil (λ _. p.votes c.epoch 0)
            (λ _. still (ok tt))))

  count_vote-Respects : (v : Vote) → Respects Q (count_vote v)
  count_vote-Respects v =
      let invoke : (Uint8 → M (Unit {0})) = λ flag.
        invoke_aba_val v.leader v.epoch v.round 0
          (if flag == action_one then flag_yes else flag_no) in
      Respects-bind p.trace (aggregated (λ a. add_vote a v))
        (λ flag. if not (flag == action_no) then invoke flag else return_nil) (p.counts_vote v)
        (λ flag.
          Respects-if Q (not (flag == action_no)) (invoke flag) return_nil
            (λ _. p.invokes v.leader v.epoch v.round 0 _) (λ _. still (ok tt)))

  handle_vote-Respects : (v : Vote) → Respects Q (handle_vote v)
  unfolding handle_vote
  handle_vote-Respects v =
      let after : (Bool → M (Unit {0})) =
        λ b. if b then lift (err (err_other 1)) else count_vote v in
      quiet_filtered v.epoch (λ c. lift (check_vote c v) >>= after)
        (λ c. Respects-bind p.trace (lift (check_vote c v)) after (still (check_vote c v)) (λ b.
          Respects-if Q b (lift (err (err_other 1))) (count_vote v)
            (λ _. still {A = Unit {0}} (err (err_other 1))) (λ _. count_vote-Respects v)))

  on_coin-Respects : (m : CoinShare) (coin : Option Uint8) → Respects Q (on_coin m coin)
  on_coin-Respects m none = still (ok tt)
  on_coin-Respects m (some coin) =
      start_aba-Respects m.epoch m.round (AbaTask.coin m.in_round coin m.leader)

  handle_coin_share-Respects : (m : CoinShare) → Respects Q (handle_coin_share m)
  unfolding handle_coin_share
  handle_coin_share-Respects m =
      quiet_filtered m.epoch (λ _. aggregated (λ a. add_coin_share a m) >>= on_coin m)
        (λ _.
          Respects-bind p.trace (aggregated (λ a. add_coin_share a m)) (on_coin m) (p.counts_coin m)
            (on_coin-Respects m))

  handle_aba_halt-Respects : (m : AbaHalt) → Respects Q (handle_aba_halt m)
  unfolding handle_aba_halt
  handle_aba_halt-Respects m =
      quiet_filtered m.epoch _ (λ _. start_aba-Respects m.epoch m.round (AbaTask.halt m))

  handle_aba_mux-Respects : (m : AbaMux) → Respects Q (handle_aba_mux m)
  unfolding handle_aba_mux
  handle_aba_mux-Respects m =
      quiet_filtered m.epoch _ (λ _. start_aba-Respects m.epoch m.round (AbaTask.mux m))

  handle_aba_val-Respects : (m : AbaVal) → Respects Q (handle_aba_val m)
  unfolding handle_aba_val
  handle_aba_val-Respects m =
      quiet_filtered m.epoch _ (λ _. start_aba-Respects m.epoch m.round (AbaTask.val m))

  handle_final-Respects : (m : Final) → Respects Q (handle_final m)
  unfolding handle_final
  handle_final-Respects m =
      quiet_filtered m.epoch _ (λ _. start_cbc-Respects m.epoch m.author m.tag (CbcTask.final m))

  handle_ready-Respects : (m : Ready) → Respects Q (handle_ready m)
  unfolding handle_ready
  handle_ready-Respects m =
      quiet_filtered m.epoch _ (λ _. start_cbc-Respects m.epoch m.proposer m.tag (CbcTask.ready m))

  handle_commitment-Respects : (m : Commitment) → Respects Q (handle_commitment m)
  unfolding handle_commitment
  handle_commitment-Respects m =
      quiet_filtered m.epoch _
        (λ _. start_cbc-Respects m.epoch m.author commit_cbc (CbcTask.commitment m))

  pub dispatch-Respects : (m : Messgae) → Respects R (dispatch sv m)
  unfolding dispatch
  dispatch-Respects (Messgae.proposal m) = handle_proposal-Respects m
  dispatch-Respects (Messgae.commitment m) =
      weak (handle_commitment m) (handle_commitment-Respects m)
  dispatch-Respects (Messgae.ready m) = weak (handle_ready m) (handle_ready-Respects m)
  dispatch-Respects (Messgae.final m) = weak (handle_final m) (handle_final-Respects m)
  dispatch-Respects (Messgae.elect_share m) =
      weak (handle_elect_share sv m) (handle_elect_share-Respects m)
  dispatch-Respects (Messgae.vote m) = weak (handle_vote m) (handle_vote-Respects m)
  dispatch-Respects (Messgae.aba_val m) = weak (handle_aba_val m) (handle_aba_val-Respects m)
  dispatch-Respects (Messgae.aba_mux m) = weak (handle_aba_mux m) (handle_aba_mux-Respects m)
  dispatch-Respects (Messgae.coin_share m) =
      weak (handle_coin_share m) (handle_coin_share-Respects m)
  dispatch-Respects (Messgae.aba_halt m) = weak (handle_aba_halt m) (handle_aba_halt-Respects m)

  pub receive_message-Respects : (m : Messgae) → Respects R (receive sv m)
  unfolding receive
  receive_message-Respects m c =
      mixed-bind p.first (lift (verify_message c.sig_service c.committee m))
        (λ valid. dispatch sv m) (λ d. p.trace.still d) (λ valid. dispatch-Respects m) c
