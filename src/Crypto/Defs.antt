-- ===== src/Crypto/Defs.antt =====
-- crypto/crypto.go. SHA-256, ed25519 and the threshold signatures (kyber) are parameters: a record
-- of functions. `strconv.AppendInt(nil, i, 2)` of Go's library is written out.
use Prim.Native.String.{len}
use bft_mvba.Base.{
  ℕ, zero, suc, ◌+◌, ◌-◌, ◌/◌, ◌%◌, ◌^◌, Bool, true, List, [], ◌∷◌, ◌++◌, Option, ltb, ◌==◌,
  if◌then◌else◌, Int64, slt, Outcome, ok, panic,
}
use bft_mvba.Committee.{PublickKey}

abbrev pub Bytes : Type 0
Bytes = List ℕ

-- A digest of 32 bytes as a number; 0 is Go's zero value `Digest{}`.
abbrev pub Digest : Type 0
Digest = ℕ

abbrev pub hash_size : ℕ
hash_size = 32

-- The signature service of one node: its keys are inside the functions.
pub record SigService : Type 0 where
  pub sha256 : Bytes → Digest
  pub ed25519_sign : Digest → Bytes
  pub ed25519_verify : PublickKey → Digest → Bytes → Bool
  pub tbls_sign : Digest → Bytes
  pub tbls_recover : List Bytes → Digest → Option Bytes

pub record Signature : Type 0 where
  pub sig : Bytes

pub record SignatureShare : Type 0 where
  pub partial_sig : Bytes

pub record Hasher : Type 0 where
  pub bytes : Bytes

abbrev pub new_hasher : Hasher
new_hasher = record { bytes = [] }

abbrev pub add : Hasher → Bytes → Hasher
add h b = record { bytes = h.bytes ++ b }

-- The digest, and the hasher as the deferred reset leaves it.
abbrev pub sum256 : SigService → Hasher → Bytes → Digest × Hasher
sum256 s h b = (s.sha256 (h.bytes ++ b), new_hasher)

-- The `n` low bytes of a number, the highest first: `d[:]`.
unfoldable pub be_bytes : ℕ → ℕ → Bytes
be_bytes zero d = []
be_bytes (suc n) d = be_bytes n (d / 256) ++ (d % 256) ∷ []

-- The `n` low bytes, the lowest first.
unfoldable pub le_bytes : ℕ → ℕ → Bytes
le_bytes zero d = []
le_bytes (suc n) d = d % 256 ∷ le_bytes n (d / 256)

unfoldable pub digest_bytes : Digest → Bytes
unfolding be_bytes
digest_bytes d = be_bytes hash_size d

-- The binary digits of a number below 2 ^ fuel, in ASCII, the highest first.
unfoldable pub format_bits : ℕ → ℕ → Bytes
format_bits zero u = []
format_bits (suc fuel) u =
    let more = format_bits fuel (u / 2) ++ (48 + u % 2) ∷ [] in
    if ltb u 2 then (48 + u) ∷ [] else more

-- `strconv.AppendInt(nil, i, 2)`: a sign, then the digits of the absolute value.
unfoldable pub append_int : Int64 → Bytes
unfolding format_bits
append_int i = if slt i 0 then 45 ∷ format_bits 64 (2 ^ 64 - i) else format_bits 64 i

-- `ed25519.Verify` panics on a key that is not 32 bytes long.
unfoldable pub verify : SigService → Signature → PublickKey → Digest → Outcome Bool
verify s sg pub_key d = if len pub_key == 32 then ok (s.ed25519_verify pub_key d sg.sig) else panic

-- The check of a partial signature accepts everything.
unfoldable pub share_verify : SignatureShare → Digest → Bool
share_verify s d = true

-- `RequestSignature`: the request goes to the signing goroutine and comes back; it never fails.
unfoldable pub request_signature : SigService → Digest → Signature
request_signature s d = record { sig = s.ed25519_sign d }

unfoldable pub request_ts_sugnature : SigService → Digest → SignatureShare
request_ts_sugnature s d = record { partial_sig = s.tbls_sign d }

abbrev pub partials : List SignatureShare → List Bytes
partials [] = []
partials (x ∷ xs) = x.partial_sig ∷ partials xs

-- `CombineIntactTSPartial`; `none` is its error.
unfoldable pub combine_intact_ts_partial : SigService → List SignatureShare → Digest → Option Bytes
combine_intact_ts_partial s shares d = s.tbls_recover (partials shares) d
