-- ===== src/Mvba/Seeds.antt =====
-- core/mvba/consensus/aggreator.go and elector.go: the number that seven bytes of a signature make.
use bft_mvba.Base.{ℕ, zero, suc, ◌+◌, ◌*◌, ◌%◌, ◌^◌, ◌≤◌, ◌<◌, ◌≡◌, refl, [], ◌∷◌, take, All, arith}
use bft_mvba.Crypto.{Bytes}
use bft_mvba.Mvba.Counters.{coin_seed, random_len}

-- The number of which the bytes are the digits, the highest first, behind `acc`.
unfoldable pub big_endian : ℕ → Bytes → ℕ
big_endian acc [] = acc
big_endian acc (b ∷ bs) = big_endian (acc * 256 + b) bs

-- `n` more bytes behind a number below `top` make one below 2 ^ 56.
abbrev Fits : ℕ → ℕ → Type 0
Fits zero top = top ≤ 2 ^ 56
Fits (suc n) top = Fits n (top * 256)

Fits-le : (n top : ℕ) → Fits n top → top ≤ 2 ^ 56
Fits-le zero top h = h
Fits-le (suc n) top h = omega (arith, Fits-le n (top * 256) h)

seed-big_endian :
    (n top acc : ℕ) (bs : Bytes)
    → Fits n top
    → acc < top
    → All (λ b. b < 256) bs
    → (coin_seed n acc bs ≡ big_endian acc (take n bs)) × (coin_seed n acc bs < 2 ^ 56)
unfolding coin_seed big_endian
seed-big_endian zero top acc bs fits low small = (refl, omega (arith, fits))
seed-big_endian (suc n) top acc [] fits low small = (refl, omega (arith, Fits-le (suc n) top fits))
seed-big_endian (suc n) top acc (b ∷ bs) fits low small =
    let le = Fits-le n (top * 256) fits in
    let whole : ((acc * 256 + b) % 2 ^ 64 ≡ acc * 256 + b) = omega (arith, le, small.0) in
    rw whole
      (seed-big_endian n (top * 256) (acc * 256 + b) bs fits (omega (arith, small.0)) small.1)

-- Whatever the signature is, as bytes, no bit of the seed is lost and its sign bit is not
-- reached: the seed of an epoch's leaders and of a coin of MVBA is the number that the first
-- seven bytes write, the highest first, and it is below 2 ^ 56.
pub coin_seed-big_endian :
    (bs : Bytes)
    → All (λ b. b < 256) bs
    → (coin_seed random_len 0 bs ≡ big_endian 0 (take 7 bs)) × (coin_seed random_len 0 bs < 2 ^ 56)
coin_seed-big_endian bs small = seed-big_endian 7 1 0 bs (omega arith) (omega arith) small
