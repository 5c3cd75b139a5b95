-- ===== src/Committee/Tests.antt =====
-- core/config.go on committees of four and of five.
use bft_mvba.Base.{◌≡◌, refl, [], ◌∷◌, true, false, has, arith}
use bft_mvba.Committee.Defs.{NodeId, no_node, Committee, size, hight_threshold}
use bft_mvba.Committee.Lookup.{IsMap}
use bft_mvba.Committee.Quorum.{IsQuorum, quorum_intersection}

abbrev five : Committee
five = record {
  authorities =
      (0, record { name = "a"; node_id = 0; addr = "h0" })
      ∷ (1, record { name = "b"; node_id = 1; addr = "h1" })
      ∷ (2, record { name = "c"; node_id = 2; addr = "h2" })
      ∷ (3, record { name = "d"; node_id = 3; addr = "h3" })
      ∷ (4, record { name = "e"; node_id = 4; addr = "h4" })
      ∷ [];
}

abbrev four : Committee
four = record {
  authorities =
      (0, record { name = "a"; node_id = 0; addr = "h0" })
      ∷ (1, record { name = "b"; node_id = 1; addr = "h1" })
      ∷ (2, record { name = "c"; node_id = 2; addr = "h2" })
      ∷ (3, record { name = "d"; node_id = 3; addr = "h3" })
      ∷ [];
}

four-IsMap : IsMap four
four-IsMap = record {
  distinct = (refl, (refl, (refl, (refl, tt))));
  proper = unfold no_node in refl;
}

first_three : IsQuorum four (0 ∷ 1 ∷ 2 ∷ [])
first_three = record {
  distinct = (refl, (refl, (refl, tt)));
  members = λ a h. ground arith;
  enough = unfold hight_threshold in omega arith;
}

last_three : IsQuorum four (1 ∷ 2 ∷ 3 ∷ [])
last_three = record {
  distinct = (refl, (refl, (refl, tt)));
  members = λ a h. ground arith;
  enough = unfold hight_threshold in omega arith;
}

quorum_intersection_example :
    (a : NodeId) × (has (0 ∷ 1 ∷ 2 ∷ []) a ≡ true)
    × (has (1 ∷ 2 ∷ 3 ∷ []) a ≡ true)
    × (has (2 ∷ []) a ≡ false)
quorum_intersection_example =
    quorum_intersection four 1 (0 ∷ 1 ∷ 2 ∷ []) (1 ∷ 2 ∷ 3 ∷ []) (2 ∷ [])
      (refl, (refl, (refl, (refl, tt)))) (unfold size in refl) (omega arith) first_three last_three
