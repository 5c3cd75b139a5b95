-- ===== src/Store/Defs.antt =====
-- store/store.go. The database (nutsdb, behind the interface `DB`) is a parameter: what it answers to
-- each call, and what it holds after a `Put`, whether that is refused or not. Requests are served one at a time by one goroutine, so a call that
-- waits for its answer is one step.
use bft_mvba.Base.{ℕ, List, [], Option, none, some, Error, ◌==◌, if◌then◌else◌}
use bft_mvba.Crypto.{Bytes}

-- What the database holds.
abbrev pub History : Type 0
History = List (Bytes × Bytes)

pub record Db : Type 0 where
  pub put : History → Bytes → Bytes → Option Error × History
  pub get : History → Bytes → Bytes × Option Error

abbrev pub read_typ : ℕ
read_typ = 0

abbrev pub write_typ : ℕ
write_typ = 1

pub record StoreReq : Type 0 where
  pub typ : ℕ
  pub key : Bytes
  pub val : Bytes
  pub error : Option Error

-- One request of the loop; a request of another type is not answered, and its caller waits.
unfoldable pub serve : Db → History → StoreReq → Option (StoreReq × History)
serve db h req =
    if req.typ == read_typ
    then (let (v, e) = db.get h req.key in some (record req { val = v; error = e }, h))
    else if req.typ == write_typ
    then (let (e, h') = db.put h req.key req.val in some (record req { error = e }, h'))
    else none

abbrev pub read_req : Bytes → StoreReq
read_req key = record { typ = read_typ; key = key; val = []; error = none }

abbrev pub write_req : Bytes → Bytes → StoreReq
write_req key val = record { typ = write_typ; key = key; val = val; error = none }

-- `Read`: the value and the error that come back. A request that nobody answers would wait.
unfoldable pub read : Db → History → Bytes → Bytes × Option Error
unfolding serve
read db h key = elim (serve db h (read_req key)) [
  | none ↦ ([], none)
  | some (req, _) ↦ (req.val, req.error)
]

-- `Write`: the error that comes back, and the history after it.
unfoldable pub write : Db → History → Bytes → Bytes → Option Error × History
unfolding serve
write db h key val = elim (serve db h (write_req key val)) [
  | none ↦ (none, h)
  | some (req, h') ↦ (req.error, h')
]
