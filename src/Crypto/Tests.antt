-- ===== src/Crypto/Tests.antt =====
-- `strconv.AppendInt` with base 2, as crypto and the messages use it.
use bft_mvba.Base.{◌-◌, ◌^◌, ◌≡◌, refl, ◌∷◌, [], slt}
use bft_mvba.Crypto.Defs.{append_int, format_bits}

minus_two : append_int (2 ^ 64 - 2) ≡ 45 ∷ 49 ∷ 48 ∷ []
unfolding append_int format_bits slt
minus_two = refl
