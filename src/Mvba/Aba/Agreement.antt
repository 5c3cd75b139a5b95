-- ===== src/Mvba/Aba/Agreement.antt =====
-- core/mvba/consensus/aba.go: how what two nodes do with one coin bears on one another.
use bft_mvba.Base.{
  ℕ, ◌+◌, ◌*◌, ◌^◌, ◌≤◌, ◌<◌, true, false, List, [], ◌∷◌, length, has, IsSetList, Int64, ◌≡◌, arith,
  ◌⊎◌, inl, inr,
}
use bft_mvba.Committee.{NodeId, Committee, size, keys, hight_threshold}
use bft_mvba.Committee.Quorum.{IsQuorum, IsSubset, quorum_intersection}
use bft_mvba.Methods.{Identity, gather}
use bft_mvba.Mvba.Messages.{Uint8, flag_yes, flag_no, Messgae, new_aba_val, new_aba_halt}
use bft_mvba.Mvba.Effects.{Effect, send, AbaTask}
use bft_mvba.Mvba.Aba.Defs.{Aba, new_aba, process_coin}
use bft_mvba.Mvba.Aba.Flags.{Reaches, Reaches-Inv, supporters, only_yes, only_no, Inv}

-- The value that a message to everybody goes on with, or halts with.
abbrev value_in : Messgae → List Uint8
value_in (Messgae.aba_val m) = m.flag ∷ []
value_in (Messgae.aba_halt m) = m.flag ∷ []
value_in (Messgae.proposal _) = []
value_in _ = []

abbrev value_sent : Effect → List Uint8
value_sent (send _ _ m) = value_in m
value_sent _ = []

abbrev pub values : List Effect → List Uint8
values es = gather value_sent es

abbrev halt_in : Messgae → List Uint8
halt_in (Messgae.aba_halt m) = m.flag ∷ []
halt_in (Messgae.proposal _) = []
halt_in _ = []

abbrev halt_sent : Effect → List Uint8
halt_sent (send _ _ m) = halt_in m
halt_sent _ = []

-- The values that the node tells everybody to halt with.
abbrev pub halts : List Effect → List Uint8
halts es = gather halt_sent es

-- The muxes for the round that an instance was given are of members, and no member's are given twice.
pub record Fair (c : Committee) (i : Int64) (ks : List AbaTask) : Type 0 where
  pub yes_once : IsSetList (supporters flag_yes i ks)
  pub no_once : IsSetList (supporters flag_no i ks)
  pub yes_members : IsSubset (supporters flag_yes i ks) (keys c.authorities)
  pub no_members : IsSubset (supporters flag_no i ks) (keys c.authorities)

-- What a node that halts with the coin, and one that goes on with something else, hold.
opposed :
    (n m : Identity) (s t : Aba) (i : Int64) (coin : Uint8) (l : NodeId)
    → halts (process_coin n s i coin l) ≡ coin ∷ []
    → (values (process_coin m t i coin l) ≡ coin ∷ [])
      ⊎ ((coin ≡ flag_yes) × (only_yes s i ≡ true) × (only_no t i ≡ true))
      ⊎ ((coin ≡ flag_no) × (only_no s i ≡ true) × (only_yes t i ≡ true))
unfolding process_coin new_aba_val new_aba_halt
opposed n m s t i coin l h = ground arith

yes_supporters-IsQuorum :
    (n : Identity) (i : Int64) (s : Aba) (ks : List AbaTask)
    → Fair n.committee i ks
    → Inv n i s ks
    → only_yes s i ≡ true
    → IsQuorum n.committee (supporters flag_yes i ks)
yes_supporters-IsQuorum n i s ks f v h = record {
  distinct = f.yes_once;
  members = f.yes_members;
  enough = v.yes_quorum h;
}

no_supporters-IsQuorum :
    (n : Identity) (i : Int64) (s : Aba) (ks : List AbaTask)
    → Fair n.committee i ks
    → Inv n i s ks
    → only_no s i ≡ true
    → IsQuorum n.committee (supporters flag_no i ks)
no_supporters-IsQuorum n i s ks f v h = record {
  distinct = f.no_once;
  members = f.no_members;
  enough = v.no_quorum h;
}

-- A member that is not faulty and whose mux for yes one instance was given, and for no the other.
abbrev pub Equivocates : List NodeId → Int64 → List AbaTask → List AbaTask → Type 0
Equivocates faulty i ks ls =
    (a : NodeId) × (has (supporters flag_yes i ks) a ≡ true)
    × (has (supporters flag_no i ls) a ≡ true)
    × (has faulty a ≡ false)

-- In a committee of 3f + 1 with at most f faulty, and f below 2 ^ 59, where two nodes run one
-- agreement from new on fewer than 2 ^ 61 tasks each, and the muxes that each is given for a
-- round of it are of members, no member's twice for one value: if one node halts the round with
-- the coin, then the other node with the same coin halts or goes on with that value, unless a
-- member that is not faulty sent its mux of the round for yes to the one node and for no to the
-- other.
pub coin_agreement :
    {s t : Aba} {ks ls : List AbaTask} {es fs : List Effect}
    → (n m : Identity) (k : ℕ) (faulty : List NodeId) (e r i : Int64) (coin : Uint8) (l : NodeId)
    → m.committee ≡ n.committee
    → IsSetList (keys n.committee.authorities)
    → size n.committee ≡ 3 * k + 1
    → k < 2 ^ 59
    → length faulty ≤ k
    → Reaches n (new_aba e r) s ks es
    → Reaches m (new_aba e r) t ls fs
    → length ks < 2 ^ 61
    → length ls < 2 ^ 61
    → Fair n.committee i ks
    → Fair n.committee i ls
    → halts (process_coin n s i coin l) ≡ coin ∷ []
    → (values (process_coin m t i coin l) ≡ coin ∷ [])
      ⊎ Equivocates faulty i ks ls
      ⊎ Equivocates faulty i ls ks
unfolding hight_threshold size
coin_agreement {s} {t} {ks} {ls} n m k faulty e r i coin l same distinct sz small few rs rt small_s
      small_t fs ft h =
    let vs = Reaches-Inv n e r i (omega arith) rs small_s in
    let vt = Reaches-Inv m e r i (rw same (omega arith)) rt small_t in
    let met : ((xs ys : List NodeId)
        → IsQuorum n.committee xs
        → IsQuorum n.committee ys
        → (a : NodeId) × (has xs a ≡ true) × (has ys a ≡ true) × (has faulty a ≡ false)) =
      λ xs ys qx qy. quorum_intersection n.committee k xs ys faulty distinct sz few qx qy in
    let ft' : Fair m.committee i ls = rw same ft in
    elim (opposed n m s t i coin l h) [
      | inl agree ↦ inl agree
      | inr (inl (_, yes_s, no_t)) ↦
          let q = no_supporters-IsQuorum m i t ls ft' vt no_t in
          inr (
            inl (
              met (supporters flag_yes i ks) (supporters flag_no i ls)
                (yes_supporters-IsQuorum n i s ks fs vs yes_s) (rw same at q)))
      | inr (inr (_, no_s, yes_t)) ↦
          let q = yes_supporters-IsQuorum m i t ls ft' vt yes_t in
          inr (
            inr (
              met (supporters flag_yes i ls) (supporters flag_no i ks) (rw same at q)
                (no_supporters-IsQuorum n i s ks fs vs no_s)))
    ]
