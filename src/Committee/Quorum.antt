-- ===== src/Committee/Quorum.antt =====
-- The thresholds of core/config.go: what two sets of `HightThreshold` members have in common.
use bft_mvba.Base.{
  ℕ, ◌+◌, ◌*◌, ◌%◌, ◌≤◌, ◌<◌, ◌≡◌, ◌↔◌, refl, inl, inr, List, [], ◌∷◌, length, Bool, true, false,
  ◌&&◌, not, ◌==◌, if◌then◌else◌, has, IsSetList, arith, Bool-cases,
}
use bft_mvba.Committee.Defs.{
  Authority, NodeId, Committee, hight_threshold, low_threshold, size, keys,
}

-- How many members of the list pass the test.
unfoldable pub tally : (ℕ → Bool) → List ℕ → ℕ
tally p [] = 0
tally p (x ∷ l) = (if p x then 1 else 0) + tally p l

abbrev pub IsSubset : List ℕ → List ℕ → Type 0
IsSubset xs l = (a : ℕ) → has xs a ≡ true → has l a ≡ true

tally-le-length : (p : ℕ → Bool) (l : List ℕ) → tally p l ≤ length l
unfolding tally
tally-le-length p [] = omega arith
tally-le-length p (x ∷ l) = ground (arith, tally-le-length p l)

-- Two tests share at least what their counts exceed the list by.
tally-and :
    (p q : ℕ → Bool) (l : List ℕ) → tally p l + tally q l ≤ length l + tally (λ a. p a && q a) l
unfolding tally
tally-and p q [] = omega arith
tally-and p q (x ∷ l) = ground (arith, tally-and p q l)

tally-cons :
    (x : ℕ) (xs l : List ℕ)
    → has xs x ≡ false
    → tally (has (x ∷ xs)) l ≡ tally (λ a. x == a) l + tally (has xs) l
unfolding tally
tally-cons x xs [] h = omega arith
tally-cons x xs (y ∷ l) h = ground (arith, tally-cons x xs l h)

tally-pos : (x : ℕ) (l : List ℕ) → has l x ≡ true → 1 ≤ tally (λ a. x == a) l
unfolding tally
tally-pos x [] h = cc
tally-pos x (y ∷ l) h = ground (arith, tally-pos x l)

-- A set of members is counted in full.
length-le-tally : (xs l : List ℕ) → IsSetList xs → IsSubset xs l → length xs ≤ tally (has xs) l
length-le-tally [] l s sub = omega arith
length-le-tally (x ∷ xs) l s sub = omega (
  arith,
  tally-cons x xs l s.0,
  tally-pos x l (sub x (ground arith)),
  length-le-tally xs l s.1 (λ a h. sub a (ground arith)),
)

tally-or :
    (p q : ℕ → Bool) (l : List ℕ)
    → tally p l ≤ tally (λ a. p a && q a) l + tally (λ a. p a && not (q a)) l
unfolding tally
tally-or p q [] = omega arith
tally-or p q (x ∷ l) = ground (arith, tally-or p q l)

tally_mono :
    (p q : ℕ → Bool) (l : List ℕ) → ((a : ℕ) → p a ≡ true → q a ≡ true) → tally p l ≤ tally q l
unfolding tally
tally_mono p q [] h = omega arith
tally_mono p q (x ∷ l) h = ground (arith, h x, tally_mono p q l h)

tally-one_missing : (x : ℕ) (l : List ℕ) → has l x ≡ false → tally (λ a. x == a) l ≡ 0
unfolding tally
tally-one_missing x [] h = refl
tally-one_missing x (y ∷ l) h = ground (arith, tally-one_missing x l)

tally-one : (x : ℕ) (l : List ℕ) → IsSetList l → tally (λ a. x == a) l ≤ 1
unfolding tally
tally-one x [] s = omega arith
tally-one x (y ∷ l) s = ground (arith, tally-one x l s.1, tally-one_missing x l)

tally-has-cons :
    (x : ℕ) (xs l : List ℕ) → tally (has (x ∷ xs)) l ≤ tally (λ a. x == a) l + tally (has xs) l
unfolding tally
tally-has-cons x xs [] = omega arith
tally-has-cons x xs (y ∷ l) = ground (arith, tally-has-cons x xs l)

tally-false : (l : List ℕ) → tally (λ a. false) l ≡ 0
unfolding tally
tally-false [] = refl
tally-false (x ∷ l) = ground (arith, tally-false l)

-- A list covers at most as many members as it is long.
tally-has-le : (xs l : List ℕ) → IsSetList l → tally (has xs) l ≤ length xs
tally-has-le [] l s = rw (tally-false l) (omega arith)
tally-has-le (x ∷ xs) l s =
    omega (arith, tally-has-cons x xs l, tally-one x l s, tally-has-le xs l s)

find_counted :
    (p : ℕ → Bool) (l : List ℕ) → 1 ≤ tally p l → (a : ℕ) × (has l a ≡ true) × (p a ≡ true)
unfolding tally
find_counted p [] h = absurd (omega arith)
find_counted p (x ∷ l) h = elim (Bool-cases (p x)) [
  | inl hit ↦ (x, ground arith, hit)
  | inr miss ↦ let (a, m, t) = find_counted p l (ground arith) in (a, ground arith, t)
]

-- A set of `HightThreshold` members of the committee.
pub record IsQuorum (c : Committee) (xs : List NodeId) : Type 0 where
  pub distinct : IsSetList xs
  pub members : IsSubset xs (keys c.authorities)
  pub enough : hight_threshold c ≤ length xs

length-keys : (l : List (NodeId × Authority)) → length (keys l) ≡ length l
length-keys [] = refl
length-keys ((k, a) ∷ l) = omega (arith, length-keys l)

quorum_overlap :
    (c : Committee) (xs ys : List NodeId)
    → IsQuorum c xs
    → IsQuorum c ys
    → 2 * hight_threshold c ≤ size c + tally (λ a. has xs a && has ys a) (keys c.authorities)
unfolding size
quorum_overlap c xs ys qx qy = omega (
  arith,
  length-keys c.authorities,
  tally-and (has xs) (has ys) (keys c.authorities),
  length-le-tally xs (keys c.authorities) qx.distinct qx.members,
  length-le-tally ys (keys c.authorities) qy.distinct qy.members,
  qx.enough,
  qy.enough,
)

-- In a committee of 3f + 1 members of which at most f are faulty, any two sets of
-- `HightThreshold` members share a member that is not faulty.
pub quorum_intersection :
    (c : Committee) (f : ℕ) (xs ys faulty : List NodeId)
    → IsSetList (keys c.authorities)
    → size c ≡ 3 * f + 1
    → length faulty ≤ f
    → IsQuorum c xs
    → IsQuorum c ys
    → (a : NodeId) × (has xs a ≡ true) × (has ys a ≡ true) × (has faulty a ≡ false)
unfolding hight_threshold size
quorum_intersection c f xs ys faulty s n few qx qy =
    let both : (ℕ → Bool) = λ a. has xs a && has ys a in
    let l : List ℕ = keys c.authorities in
    let (a, m, t) =
      find_counted (λ a. both a && not (has faulty a)) l
        (omega (
          arith,
          quorum_overlap c xs ys qx qy,
          tally-or both (has faulty) l,
          tally_mono (λ a. both a && has faulty a) (has faulty) l (λ a h. ground arith),
          tally-has-le faulty l s,
        )) in
    (a, ground arith, ground arith, ground arith)

-- In a committee that is not empty, its size and `LowThreshold` add up to no more than two
-- quorums, which makes two quorums share `LowThreshold` members, exactly if its size is 3f + 1.
pub threshold_margin :
    (c : Committee)
    → 0 < size c
    → ((size c + low_threshold c ≤ 2 * hight_threshold c) ↔ (size c % 3 ≡ 1))
unfolding size low_threshold hight_threshold
threshold_margin c h = (λ k. omega arith, λ k. omega arith)
