-- ===== src/Mvba/Elector/Defs.antt =====
-- core/mvba/consensus/elector.go. The shuffle of Go's math/rand, from its seed, is a parameter.
use bft_mvba.Base.{
  List, [], ◌∷◌, ◌++◌, length, get_elem?, Option, none, some, Bool, true, false, Outcome, ok, err,
  panic, err_one_more_message, err_other, if◌then◌else◌, ◌==◌, has, Int64, put,
}
use bft_mvba.Committee.{NodeId, no_node, Committee, size, hight_threshold}
use bft_mvba.Crypto.{Bytes, SigService, SignatureShare, combine_intact_ts_partial}
use bft_mvba.Committor.Order.{count_up}
use bft_mvba.Mvba.Messages.{ElectShare, elect_share_hash}
use bft_mvba.Mvba.Counters.{coin_seed, random_len}

-- What `rand.New(rand.NewSource(seed)).Shuffle` makes of a list.
abbrev pub Shuffle : Type 0
Shuffle = Int64 → List NodeId → List NodeId

pub record Elector : Type 0 where
  pub committee : Committee
  pub sig_service : SigService
  pub seeds : Int64 → Option Int64
  pub rand_gen : Int64 → Option (List NodeId)
  pub used : Int64 → List NodeId
  pub elect_shares : Int64 → List SignatureShare

unfoldable pub new_elector : Committee → SigService → Elector
new_elector c s = record {
  committee = c;
  sig_service = s;
  seeds = λ _. none;
  rand_gen = λ _. none;
  used = λ _. [];
  elect_shares = λ _. [];
}

unfoldable pub add_seed : Shuffle → Elector → Int64 → Int64 → Elector
add_seed shuffle e epoch seed = record e {
  seeds = put e.seeds epoch (some seed);
  rand_gen = put e.rand_gen epoch (some (shuffle seed (count_up 0 (size e.committee))));
}

-- What follows on the combination of the shares; the loop over its bytes is that of the coin.
abbrev pub seeded : Shuffle → Elector → Int64 → Option Bytes → Outcome Bool × Elector
seeded shuffle e epoch none = (err (err_other 0), e)
seeded shuffle e epoch (some bytes) =
    (ok true, add_seed shuffle e epoch (coin_seed random_len 0 bytes))

-- The author is looked up among those that are used, and not put there.
unfoldable pub add_elect_share : Shuffle → Elector → ElectShare → Outcome Bool × Elector
unfolding add_seed coin_seed combine_intact_ts_partial
add_elect_share shuffle e m =
    if has (e.used m.epoch) m.author
    then (err (err_one_more_message 4 m.epoch 0 m.author), e)
    else (let shares = e.elect_shares m.epoch ++ m.share ∷ [] in
        let e' = record e { elect_shares = put e.elect_shares m.epoch shares } in
        if length shares == hight_threshold e.committee
        then seeded shuffle e' m.epoch
            (combine_intact_ts_partial e.sig_service shares (elect_share_hash e.sig_service m))
        else (ok false, e'))

-- `gen[round]` panics out of range.
abbrev pub in_order : List NodeId → Int64 → Outcome NodeId
in_order gen round = elim (get_elem? gen round) [ none ↦ panic | some l ↦ ok l ]

unfoldable pub leader : Elector → Int64 → Int64 → Outcome NodeId
leader e epoch round = elim (e.rand_gen epoch) [ none ↦ ok no_node | some gen ↦ in_order gen round ]
