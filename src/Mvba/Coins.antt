-- ===== src/Mvba/Coins.antt =====
-- core/mvba/consensus/aggreator.go, `CoinAggreator`: whose shares make a coin.
use bft_mvba.Base.{◌+◌, ◌≡◌, refl, List, [], ◌∷◌, ◌++◌, length, length-append, arith}
use bft_mvba.Committee.{Committee, hight_threshold}
use bft_mvba.Crypto.{SigService, combine_intact_ts_partial}
use bft_mvba.Mvba.Messages.{CoinShare, coin_share_hash}
use bft_mvba.Mvba.Counters.{CoinAggreator, new_coin_aggreator, append_coin, toss}

-- The counter after a run of shares, the newest first.
unfoldable pub counted_coins : Committee → SigService → List CoinShare → CoinAggreator
counted_coins c s [] = new_coin_aggreator
counted_coins c s (m ∷ ms) = (append_coin c s (counted_coins c s ms) m).1

counted_coins-held :
    (c : Committee) (s : SigService) (ms : List CoinShare)
    → ((counted_coins c s ms).used ≡ []) × (length (counted_coins c s ms).shares ≡ length ms)
unfolding counted_coins append_coin
counted_coins-held c s [] = (refl, refl)
counted_coins-held c s (m ∷ ms) =
    let before = counted_coins-held c s ms in
    let k = counted_coins c s ms in
    (ground (arith, before), ground (arith, before, length-append k.shares (m.share ∷ [])))

-- After any run of one share less than `HightThreshold`, whoever their authors are, the next
-- share tosses the coin of MVBA from all the shares.
pub coin_authors_not_distinguished :
    (c : Committee) (s : SigService) (ms : List CoinShare) (m : CoinShare)
    → length ms + 1 ≡ hight_threshold c
    → (append_coin c s (counted_coins c s ms) m).0
      ≡ toss (
          combine_intact_ts_partial s
            ((counted_coins c s ms).shares ++ m.share ∷ [])
            (coin_share_hash s m))
unfolding append_coin
coin_authors_not_distinguished c s ms m quorum =
    let held = counted_coins-held c s ms in
    ground (arith, held, length-append (counted_coins c s ms).shares (m.share ∷ []))
