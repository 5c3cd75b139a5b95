-- ===== src/Smvba/Aggreator/Leaders.antt =====
-- core/smvba/consensus/aggreator.go, `ElectAggreator`: the leader that the shares elect.
use bft_mvba.Base.{◌<◌, Option, Outcome, ok, err, panic, arith}
use bft_mvba.Committee.{NodeId, Committee, size}
use bft_mvba.Crypto.{Bytes}
use bft_mvba.Smvba.Aggreator.Defs.{coin_leader, coin_bytes}

-- A leader is a place in the committee; no leader yet is `no_node`.
abbrev pub IsLeader : Committee → Outcome NodeId → Type 0
IsLeader c (ok l) = l < size c
IsLeader c (err _) = Unit
IsLeader c panic = Unit

pub coin_leader-IsLeader : (c : Committee) (coin : Option Bytes) → IsLeader c (coin_leader c coin)
unfolding coin_leader coin_bytes
coin_leader-IsLeader c coin = ground arith
