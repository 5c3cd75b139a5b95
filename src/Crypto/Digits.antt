-- ===== src/Crypto/Digits.antt =====
-- The binary rendering of an integer can be read back, so by itself it loses nothing.
use native.Mathlib.Nat.{pow-suc}
use native.Mathlib.Decide.{dec_lt}
use bft_mvba.Base.{
  ℕ, zero, suc, ◌+◌, ◌-◌, ◌*◌, ◌/◌, ◌%◌, ◌^◌, ◌<◌, ◌≡◌, refl, sym, ◌∙◌, ap, [], ◌∷◌, ◌++◌, ◌==◌,
  if◌then◌else◌, Int64, arith, le→ltb, ◌≤◌, All, All-append, ==_false, slt-zero_pos, slt-zero_neg,
}
use bft_mvba.Crypto.Defs.{Bytes, format_bits, append_int}

-- The number that a row of binary digits stands for, behind `acc`.
unfoldable pub digits_value : ℕ → Bytes → ℕ
digits_value acc [] = acc
digits_value acc (d ∷ ds) = digits_value (2 * acc + (d - 48)) ds

digits_value-append :
    (acc : ℕ) (xs : Bytes) (d : ℕ)
    → digits_value acc (xs ++ d ∷ []) ≡ 2 * digits_value acc xs + (d - 48)
unfolding digits_value
digits_value-append acc [] d = refl
digits_value-append acc (x ∷ xs) d = digits_value-append (2 * acc + (x - 48)) xs d

format_bits-small : (fuel u : ℕ) → u < 2 → format_bits (suc fuel) u ≡ (48 + u) ∷ []
unfolding format_bits
format_bits-small fuel u h = ground arith

format_bits-large :
    (fuel u : ℕ) → 2 ≤ u → format_bits (suc fuel) u ≡ format_bits fuel (u / 2) ++ (48 + u % 2) ∷ []
unfolding format_bits
format_bits-large fuel u h = rw (le→ltb u 2 h)

digits_value-one : (d : ℕ) → digits_value 0 ((48 + d) ∷ []) ≡ d
unfolding digits_value
digits_value-one d = omega arith

-- With enough fuel for the number's width, the digits stand for the number.
pub digits_value-format_bits :
    (fuel u : ℕ) → u < 2 ^ suc fuel → digits_value 0 (format_bits (suc fuel) u) ≡ u
digits_value-format_bits zero u h = rw (format_bits-small zero u (omega arith)) (digits_value-one u)
digits_value-format_bits (suc fuel) u h = elim (dec_lt u 2) [
  | yes small ↦ rw (format_bits-small (suc fuel) u small) (digits_value-one u)
  | no large ↦ rw (format_bits-large (suc fuel) u (omega arith)) (
      omega (
        arith,
        digits_value-append 0 (format_bits (suc fuel) (u / 2)) (48 + u % 2),
        digits_value-format_bits fuel (u / 2) (omega (arith, pow-suc 2 (suc fuel))),
      ))
]

format_bits-digits : (fuel u : ℕ) → All (λ b. 48 ≤ b) (format_bits fuel u)
format_bits-digits zero u = unfold format_bits in tt
format_bits-digits (suc fuel) u = elim (dec_lt u 2) [
  | yes small ↦ rw (format_bits-small fuel u small) (omega arith, tt)
  | no large ↦ rw (format_bits-large fuel u (omega arith)) (
      All-append (λ b. 48 ≤ b) (format_bits fuel (u / 2)) ((48 + u % 2) ∷ [])
        (format_bits-digits fuel (u / 2)) (omega arith, tt))
]

-- Reads `append_int` back.
unfoldable pub parse_int : Bytes → Int64
parse_int [] = 0
parse_int (d ∷ ds) = if d == 45 then 2 ^ 64 - digits_value 0 ds else digits_value 0 (d ∷ ds)

parse_int-digits : (ds : Bytes) → All (λ b. 48 ≤ b) ds → parse_int ds ≡ digits_value 0 ds
unfolding parse_int digits_value
parse_int-digits [] h = refl
parse_int-digits (d ∷ ds) h = rw (==_false d 45 (omega arith))

-- The rendering of an `int64`, negative ones included, can be read back.
pub parse_int-append_int : (i : Int64) → i < 2 ^ 64 → parse_int (append_int i) ≡ i
unfolding append_int
parse_int-append_int i h = elim (dec_lt i (2 ^ 63)) [
  | yes plain ↦ rw (slt-zero_pos i plain) (
      parse_int-digits (format_bits 64 i) (format_bits-digits 64 i)
      ∙ digits_value-format_bits 63 i h)
  | no negative ↦
      rw (slt-zero_neg i (omega arith) h)
        (unfold parse_int in omega (arith, digits_value-format_bits 63 (2 ^ 64 - i) (omega arith)))
]

-- Two integers have the same rendering only if they are equal.
pub append_int-injective :
    (i j : Int64) → i < 2 ^ 64 → j < 2 ^ 64 → append_int i ≡ append_int j → i ≡ j
append_int-injective i j hi hj e =
    sym (parse_int-append_int i hi) ∙ ap parse_int e ∙ parse_int-append_int j hj
