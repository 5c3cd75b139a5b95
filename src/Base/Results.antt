-- ===== src/Base/Results.antt =====
-- What a call gives back: a value, an error value, or a run-time panic.
use Prim.Native.Nat.{ℕ}

-- core/error.go, store/store.go, and the errors of the libraries.
pub data Error : Type 0 where
  err_signature : (msg_typ : ℕ) → Error
  err_one_more_message : (msg_typ epoch round author : ℕ) → Error
  err_not_found_key : Error
  err_other : ℕ → Error

pub data Outcome {ℓ} (A : Type ℓ) : Type ℓ where
  ok : A → Outcome A
  err : Error → Outcome A
  panic : Outcome A
