-- ===== src/Fixtures.antt =====
-- What the runs of the nodes on concrete inputs share: a committee of four, keys that sign a digest by
-- writing it down, a store that keeps blocks, and a pool.
use bft_mvba.Base.{
  ℕ, ◌+◌, ◌*◌, [], ◌∷◌, Bool, true, false, ◌&&◌, ◌==◌, Option, none, some, Error, err_other, Int64,
  if◌then◌else◌,
}
use bft_mvba.Committee.{NodeId, Authority, Committee}
use bft_mvba.Crypto.{Bytes, Digest, SigService}
use bft_mvba.Pool.{Pool, new_pool}
use bft_mvba.Store.{History, Db}
use bft_mvba.Methods.{Identity}

abbrev pub member : Int64 → NodeId × Authority
member i = (i, record { name = "0123456789abcdef0123456789abcdef"; node_id = i; addr = "host" })

abbrev pub four : Committee
four = record { authorities = member 0 ∷ member 1 ∷ member 2 ∷ member 3 ∷ [] }

abbrev sum_of : Bytes → ℕ
sum_of [] = 1
sum_of (b ∷ bs) = b + 256 * sum_of bs

abbrev is_written : Digest → Bytes → Bool
is_written d [] = false
is_written d (b ∷ bs) = b == d

abbrev pub service : SigService
service = record {
  sha256 = sum_of;
  ed25519_sign = λ d. d ∷ [];
  ed25519_verify = λ key d sig. is_written d sig;
  tbls_sign = λ d. d ∷ [];
  tbls_recover = λ shares d. some (0 ∷ 0 ∷ 2 ∷ []);
}

abbrev pub node : Identity
node = record { name = 0; committee = four; sig_service = service }

abbrev same_bytes : Bytes → Bytes → Bool
same_bytes [] [] = true
same_bytes [] (_ ∷ _) = false
same_bytes (_ ∷ _) [] = false
same_bytes (x ∷ xs) (y ∷ ys) = x == y && same_bytes xs ys

abbrev find : History → Bytes → Bytes × Option Error
find [] key = ([], some (err_other 1))
find ((k, v) ∷ h) key = if same_bytes k key then (v, none) else find h key

abbrev pub db : Db
db = record { put = λ h k v. (none, (k, v) ∷ h); get = find }

abbrev pub pool : Pool
pool = new_pool (record { rate = 1; tx_size = 16; batch_size = 2; max_queue_size = 4 }) 4 0
