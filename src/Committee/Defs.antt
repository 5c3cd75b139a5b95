-- ===== src/Committee/Defs.antt =====
-- core/config.go: `NodeID`, `Authority`, `Committee` and its methods, and the addresses of
-- core/transmitor.go.
use Prim.Native.String.{String}
use text.Mathlib.Text.{◌==◌ as str_eq}
use bft_mvba.Base.{
  ℕ, ◌+◌, ◌-◌, ◌*◌, ◌/◌, ◌^◌, List, [], ◌∷◌, length, ◌==◌, if◌then◌else◌, Int64, not,
}

abbrev pub NodeId : Type 0
NodeId = Int64

-- -1 as a 64-bit pattern.
unfoldable pub no_node : NodeId
no_node = 2 ^ 64 - 1

-- The bytes of an ed25519 key, as a text; the zero `Authority` has an empty one.
abbrev pub PublickKey : Type 0
PublickKey = String

pub record Authority : Type 0 where
  pub name : PublickKey
  pub node_id : NodeId
  pub addr : String

pub record Committee : Type 0 where
  pub authorities : List (NodeId × Authority)

abbrev pub zero_authority : Authority
zero_authority = record { name = ""; node_id = 0; addr = "" }

abbrev pub keys : List (NodeId × Authority) → List NodeId
keys [] = []
keys ((k, _) ∷ rest) = k ∷ keys rest

-- `c.Authorities[id]`, with Go's zero value on a missing key.
unfoldable pub authority : List (NodeId × Authority) → NodeId → Authority
authority [] id = zero_authority
authority ((k, a) ∷ rest) id = if k == id then a else authority rest id

unfoldable pub id_in : List (NodeId × Authority) → PublickKey → NodeId
id_in [] name = no_node
id_in ((k, a) ∷ rest) name = if str_eq a.name name then k else id_in rest name

unfoldable pub id_of : Committee → PublickKey → NodeId
unfolding id_in
id_of c name = id_in c.authorities name

unfoldable pub size : Committee → ℕ
size c = length c.authorities

unfoldable pub name_of : Committee → NodeId → PublickKey
unfolding authority
name_of c id = (authority c.authorities id).name

unfoldable pub address : Committee → NodeId → String
unfolding authority
address c id = (authority c.authorities id).addr

unfoldable pub others : List (NodeId × Authority) → NodeId → List String
others [] id = []
others ((k, a) ∷ rest) id = if not (k == id) then a.addr ∷ others rest id else others rest id

unfoldable pub broad_cast : Committee → NodeId → List String
unfolding others
broad_cast c id = others c.authorities id

-- The addresses that `Transmitor.Send` of core/transmitor.go gives a message: with no target, those
-- of everybody else.
unfoldable pub addresses : Committee → NodeId → NodeId → List String
unfolding broad_cast address
addresses c source target = if target == no_node then broad_cast c source else address c target ∷ []

-- 2f + 1
unfoldable pub hight_threshold : Committee → ℕ
hight_threshold c = let n = length c.authorities in 2 * ((n - 1) / 3) + 1

-- f + 1
unfoldable pub low_threshold : Committee → ℕ
low_threshold c = let n = length c.authorities in (n - 1) / 3 + 1
