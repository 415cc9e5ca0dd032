-- ===== src/Sim/World/Entries.antt =====
-- The entries of `base` in `balanced_production` (bazaar_sim/world.py) under a planet's index.
use spaceport_bazzar_client.Base.{
  ◌==◌, nat_eq, Bool-cases, length, keep_if, All, keep_if-test, All-both, ℕ, zero, suc, ◌+◌, ◌*◌,
  ◌/◌, ◌%◌, ◌≤◌, ◌≡◌, refl, ◌∙◌, inl, inr, Bool, true, false, none, some, List, [], ◌∷◌, ◌++◌,
  arith,
}
use spaceport_bazzar_client.Domain.Bundle.{Resource, resource_eq}
use spaceport_bazzar_client.Sim.World.{
  specialty_of, range_from, producers, shares, base_for, entry_of,
}

-- Indices in rising order, from a lower bound on.
abbrev Rises : ℕ → List ℕ → Type 0
Rises lo [] = Unit
Rises lo (i ∷ l) = (lo ≤ i) × Rises (i + 1) l

Rises-lower : (lo hi : ℕ) (l : List ℕ) → lo ≤ hi → Rises hi l → Rises lo l
Rises-lower lo hi [] h k = tt
Rises-lower lo hi (i ∷ l) h k = (omega (arith, h, k.0), k.1)

range_from-Rises : (start count : ℕ) → Rises start (range_from start count)
range_from-Rises start zero = tt
range_from-Rises start (suc count) = (omega arith, range_from-Rises (start + 1) count)

keep_if-Rises : (test : ℕ → Bool) (lo : ℕ) (l : List ℕ) → Rises lo l → Rises lo (keep_if test l)
keep_if-Rises test lo [] h = tt
keep_if-Rises test lo (i ∷ l) h =
    let rest = keep_if-Rises test (i + 1) l h.1 in
    elim (Bool-cases (test i)) [
      | inl kept ↦ rw kept (h.0, rest)
      | inr left ↦ rw left (Rises-lower lo (i + 1) (keep_if test l) (omega (arith, h.0)) rest)
    ]

-- An entry is found under its index.
abbrev pub IsEntry : List (ℕ × ℕ) → ℕ × ℕ → Type 0
IsEntry base m = entry_of m.0 base ≡ some m.1

-- Every share is found in the list of shares.
shares-entries :
    (share extra rank lo : ℕ) (makers : List ℕ)
    → Rises lo makers
    → All
        (λ m. (lo ≤ m.0) × IsEntry (shares share extra rank makers) m)
        (shares share extra rank makers)
unfolding shares
shares-entries share extra rank lo [] h = tt
shares-entries share extra rank lo (i ∷ makers) h = (
  (h.0, ground arith),
  All-both (λ m. (i + 1 ≤ m.0) × IsEntry (shares share extra (rank + 1) makers) m)
      (λ m. (i + 1 ≤ m.0) × IsEntry (shares share extra (rank + 1) makers) m)
      (λ m. (lo ≤ m.0) × IsEntry (shares share extra rank (i ∷ makers)) m)
      (shares share extra (rank + 1) makers)
      (λ m later _. (omega (arith, h.0, later.0), ground (arith, later.0, later.1)))
      (shares-entries share extra (rank + 1) (i + 1) makers h.1)
      (shares-entries share extra (rank + 1) (i + 1) makers h.1),
)

-- A planet that is no maker has no share.
shares-other :
    (share extra rank i : ℕ) (makers : List ℕ)
    → All (λ j. (j == i) ≡ false) makers
    → entry_of i (shares share extra rank makers) ≡ none
unfolding shares
shares-other share extra rank i [] h = refl
shares-other share extra rank i (j ∷ makers) h =
    rw (h.0, shares) (shares-other share extra (rank + 1) i makers h.1)

entry_of-left :
    (i n : ℕ) (l k : List (ℕ × ℕ)) → entry_of i l ≡ some n → entry_of i (l ++ k) ≡ some n
entry_of-left i n [] k h = absurd (cc)
entry_of-left i n ((j, x) ∷ l) k h = ground (arith, entry_of-left i n l k)

entry_of-right :
    (i : ℕ) (l k : List (ℕ × ℕ)) → entry_of i l ≡ none → entry_of i (l ++ k) ≡ entry_of i k
entry_of-right i [] k h = refl
entry_of-right i ((j, x) ∷ l) k h = ground (arith, entry_of-right i l k)

shares-makers :
    (share extra rank : ℕ) (P : ℕ → Type 0) (makers : List ℕ)
    → All P makers
    → All (λ m. P m.0) (shares share extra rank makers)
unfolding shares
shares-makers share extra rank P [] h = tt
shares-makers share extra rank P (i ∷ makers) h =
    (h.0, shares-makers share extra (rank + 1) P makers h.1)

module _ (planets upkeep : ℕ) where
  -- A planet has no entry among the producers of another resource.
  base_for-other :
      (r s : Resource) (i : ℕ)
      → specialty_of i ≡ r
      → (r == s) ≡ false
      → entry_of i (base_for planets upkeep s) ≡ none
  unfolding base_for
  base_for-other r s i mine other =
      let makers = producers planets s in
      shares-other (planets * upkeep / length makers) (planets * upkeep % length makers) 0 i makers
        (All-both (λ j. (specialty_of j == s) ≡ true) (λ j. (specialty_of j == s) ≡ true)
          (λ j. (j == i) ≡ false) makers
          (λ j made _. elim (Bool-cases (j == i)) [
            | inr apart ↦ apart
            | inl same ↦ absurd (
                let equal : j ≡ i = ground arith in
                let found : (r == s) ≡ true = rw (equal, mine) at made in ground arith)
          ])
          (keep_if-test (λ j. specialty_of j == s) (range_from 0 planets))
          (keep_if-test (λ j. specialty_of j == s) (range_from 0 planets)))

  base_for-own :
      (r : Resource)
      → All
          (λ m. (specialty_of m.0 ≡ r) × IsEntry (base_for planets upkeep r) m)
          (base_for planets upkeep r)
  unfolding base_for
  base_for-own r =
      let makers = producers planets r in
      let share = planets * upkeep / length makers in
      let extra = planets * upkeep % length makers in
      All-both (λ m. (specialty_of m.0 == r) ≡ true)
        (λ m. (0 ≤ m.0) × IsEntry (shares share extra 0 makers) m)
        (λ m. (specialty_of m.0 ≡ r) × IsEntry (shares share extra 0 makers) m)
        (shares share extra 0 makers) (λ m made entry. (ground arith, entry.1))
        (shares-makers share extra 0 (λ i. (specialty_of i == r) ≡ true) makers
          (keep_if-test (λ i. specialty_of i == r) (range_from 0 planets)))
        (shares-entries share extra 0 0 makers (
          keep_if-Rises (λ i. specialty_of i == r) 0 (range_from 0 planets)
            (range_from-Rises 0 planets)))

  -- `base`
  abbrev pub base_of_all : List (ℕ × ℕ)
  base_of_all =
      base_for planets upkeep Resource.water
      ++ base_for planets upkeep Resource.food
      ++ base_for planets upkeep Resource.components

  found_in_all :
      (r : Resource) (m : ℕ × ℕ)
      → specialty_of m.0 ≡ r
      → IsEntry (base_for planets upkeep r) m
      → IsEntry base_of_all m
  found_in_all Resource.water m mine h =
      let from_water = base_for planets upkeep Resource.water in
      let from_food = base_for planets upkeep Resource.food in
      entry_of-left m.0 m.1 (from_water ++ from_food) (base_for planets upkeep Resource.components)
        (entry_of-left m.0 m.1 from_water from_food h)
  found_in_all Resource.food m mine h =
      let from_water = base_for planets upkeep Resource.water in
      let from_food = base_for planets upkeep Resource.food in
      entry_of-left m.0 m.1 (from_water ++ from_food) (base_for planets upkeep Resource.components)
        (entry_of-right m.0 from_water from_food
            (base_for-other Resource.food Resource.water m.0 mine refl)
          ∙ h)
  found_in_all Resource.components m mine h =
      let from_water = base_for planets upkeep Resource.water in
      let from_food = base_for planets upkeep Resource.food in
      entry_of-right m.0 (from_water ++ from_food) (base_for planets upkeep Resource.components) (
        entry_of-right m.0 from_water from_food
          (base_for-other Resource.components Resource.water m.0 mine refl)
        ∙ base_for-other Resource.components Resource.food m.0 mine refl)
      ∙ h

  -- The share of every producer of a resource is its entry.
  pub base_for-entries : (r : Resource) → All (IsEntry base_of_all) (base_for planets upkeep r)
  base_for-entries r =
      All-both (λ m. (specialty_of m.0 ≡ r) × IsEntry (base_for planets upkeep r) m)
        (λ m. (specialty_of m.0 ≡ r) × IsEntry (base_for planets upkeep r) m) (IsEntry base_of_all)
        (base_for planets upkeep r) (λ m own _. found_in_all r m own.0 own.1) (base_for-own r)
        (base_for-own r)
