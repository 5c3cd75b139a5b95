-- ===== src/Committee/Lookup.antt =====
-- What the lookups of core/config.go find.
use text.Mathlib.TextEquality.{eq_iff}
use native.Mathlib.Decide.{ℕ_discrete}
use bft_mvba.Base.{
  ◌+◌, ◌≡◌, refl, ◌⊎◌, inl, inr, List, [], ◌∷◌, length, true, false, has, IsSetList, arith, ◌≢◌,
}
use bft_mvba.Committee.Defs.{
  NodeId, no_node, PublickKey, Authority, Committee, keys, authority, id_in, id_of, size, name_of,
  others, addresses, broad_cast,
}

-- The keys are those of a Go map, and no authority has the key that stands for "none".
pub record IsMap (c : Committee) : Type 0 where
  pub distinct : IsSetList (keys c.authorities)
  pub proper : has (keys c.authorities) no_node ≡ false

length-others_missing :
    (l : List (NodeId × Authority)) (id : NodeId)
    → has (keys l) id ≡ false
    → length (others l id) ≡ length l
unfolding others
length-others_missing [] id h = refl
length-others_missing ((k, a) ∷ rest) id h = ground (arith, length-others_missing rest id)

length-others :
    (l : List (NodeId × Authority)) (id : NodeId)
    → IsSetList (keys l)
    → has (keys l) id ≡ true
    → length (others l id) + 1 ≡ length l
unfolding others
length-others [] id s h = cc
length-others ((k, a) ∷ rest) id s h =
    ground (arith, length-others rest id, length-others_missing rest id)

-- Where authorities are a map, what a member sends without a target goes to one address for each
-- other member.
pub length-addresses :
    (c : Committee) (id : NodeId)
    → IsMap c
    → has (keys c.authorities) id ≡ true
    → length (addresses c id no_node) + 1 ≡ size c
unfolding addresses broad_cast size
length-addresses c id m h = ground (arith, length-others c.authorities id m.distinct h)

id_in-has :
    (l : List (NodeId × Authority)) (name : PublickKey)
    → id_in l name ≢ no_node
    → has (keys l) (id_in l name) ≡ true
unfolding id_in
id_in-has [] name h = absurd (h refl)
id_in-has ((k, a) ∷ rest) name h = ground (arith, id_in-has rest name)

id_in-name :
    (l : List (NodeId × Authority)) (name : PublickKey)
    → IsSetList (keys l)
    → id_in l name ≢ no_node
    → (authority l (id_in l name)).name ≡ name
unfolding id_in authority
id_in-name [] name s h = absurd (h refl)
id_in-name ((k, a) ∷ rest) name s h =
    ground (arith, eq_iff a.name name, id_in-has rest name, id_in-name rest name)

id_in-missing :
    (l : List (NodeId × Authority)) (name : PublickKey) (j : NodeId)
    → has (keys l) no_node ≡ false
    → id_in l name ≡ no_node
    → has (keys l) j ≡ true
    → (authority l j).name ≢ name
unfolding id_in authority
id_in-missing [] name j p h m = cc
id_in-missing ((k, a) ∷ rest) name j p h m =
    ground (arith, eq_iff a.name name, id_in-missing rest name j)

-- Where authorities are a map without the key for none, `ID` gives an authority of the name, and
-- `NONE` only if no authority has that name.
pub id_of-name_of :
    (c : Committee) (name : PublickKey)
    → IsMap c
    → ((id_of c name ≢ no_node) × (name_of c (id_of c name) ≡ name))
      ⊎ ((id_of c name ≡ no_node)
          × ((j : NodeId) → has (keys c.authorities) j ≡ true → name_of c j ≢ name))
unfolding id_of name_of
id_of-name_of c name m = elim (ℕ_discrete (id_in c.authorities name) no_node) [
  | yes e ↦ inr (e, λ j. id_in-missing c.authorities name j m.proper e)
  | no e ↦ inl (e, id_in-name c.authorities name m.distinct e)
]
