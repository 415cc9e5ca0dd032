-- ===== src/Sim/World/Cycle.antt =====
-- Balanced production covers what the world consumes, over its cycle (bazaar_sim/world.py).
use spaceport_bazzar_client.Base.{
  ltb, if◌then◌else◌, ◌>>=◌, length, sum_by, All, ℕ, ◌+◌, ◌-◌, ◌*◌, ◌/◌, ◌%◌, ◌≤◌, ◌≡◌, refl, ap,
  ◌⊎◌, inl, inr, false, Option, some, List, [], ◌∷◌, arith,
}
use spaceport_bazzar_client.Base.Float.{Ratio, ratio, nearest, float}
use spaceport_bazzar_client.Domain.Bundle.{Resource}
use spaceport_bazzar_client.Sim.World.{
  producers, shares, base_for, scaled, entry_of, swing_up, swing_down, balanced_output,
  balanced_production,
}
use spaceport_bazzar_client.Sim.World.Balance.{base_for-sum}
use spaceport_bazzar_client.Sim.World.Entries.{IsEntry, base_of_all, base_for-entries}

-- What planets make together in a tick.
unfoldable pub output_of : (ℕ → ℕ → Option ℕ) → ℕ → List ℕ → Option ℕ
output_of produce tick [] = some 0
output_of produce tick (i ∷ makers) = do
  n ← produce tick i
  rest ← output_of produce tick makers
  some (n + rest)

-- The surplus of 0.0.
abbrev pub no_surplus : Ratio
no_surplus = ratio 0 1

zero_times : (n : ℕ) → n * 0 ≡ 0
zero_times n = omega arith

scaled-none : (k n : ℕ) → scaled k n no_surplus ≡ 0
unfolding nearest
scaled-none k n = rw (zero_times (float (k * n)).num) refl

-- The three phases of the swing, from a base that is not below the variation.
abbrev swung : ℕ → ℕ → ℕ → ℕ
swung n variation phase = n + swing_up variation phase - swing_down variation phase

swung-cycle :
    (n variation x : ℕ)
    → variation ≤ n
    → swung n variation (x % 3) + swung n variation ((x + 1) % 3) + swung n variation ((x + 2) % 3)
      ≡ 3 * n
swung-cycle n variation x h =
    let cases : (x % 3 ≡ 0) ⊎ (x % 3 ≡ 1) ⊎ (x % 3 ≡ 2) = omega arith in
    elim cases [
      | inl a ↦
          let b : (x + 1) % 3 ≡ 1 = omega (arith, a) in
          let c : (x + 2) % 3 ≡ 2 = omega (arith, a) in rw (a, b, c) (omega (arith, h))
      | inr (inl a) ↦
          let b : (x + 1) % 3 ≡ 2 = omega (arith, a) in
          let c : (x + 2) % 3 ≡ 0 = omega (arith, a) in rw (a, b, c) (omega (arith, h))
      | inr (inr a) ↦
          let b : (x + 1) % 3 ≡ 0 = omega (arith, a) in
          let c : (x + 2) % 3 ≡ 1 = omega (arith, a) in rw (a, b, c) (omega (arith, h))
    ]

module _ (base : List (ℕ × ℕ)) (variation : ℕ) where
  abbrev made : ℕ → ℕ → Option ℕ
  made = balanced_output base variation no_surplus

  made-swung :
      (tick i n : ℕ)
      → entry_of i base ≡ some n
      → made tick i ≡ some (swung n variation ((tick / 12 + i) % 3))
  unfolding balanced_output
  made-swung tick i n h =
      rw (h, ◌>>=◌, scaled-none (tick + 1) n, scaled-none tick n) (ap some (omega arith))

  -- The outputs at a tick and at the same point of the next two phases.
  shares-cycle :
      (tick share extra rank : ℕ) (makers : List ℕ)
      → variation ≤ share
      → All (IsEntry base) (shares share extra rank makers)
      → (a b c : ℕ) × (output_of made tick makers ≡ some a)
        × (output_of made (tick + 12) makers ≡ some b)
        × (output_of made (tick + 24) makers ≡ some c)
        × (a + b + c ≡ 3 * sum_by (λ (m : ℕ × ℕ). m.1) (shares share extra rank makers))
  unfolding shares output_of
  shares-cycle tick share extra rank [] h k = (0, 0, 0, refl, refl, refl, omega arith)
  shares-cycle tick share extra rank (i ∷ makers) h k =
      let n = share + (if ltb rank extra then 1 else 0) in
      let x = tick / 12 + i in
      let (a, b, c, first, second, third, rest) =
        shares-cycle tick share extra (rank + 1) makers h k.1 in
      let one = made-swung tick i n k.0 in
      let two = made-swung (tick + 12) i n k.0 in
      let three = made-swung (tick + 24) i n k.0 in
      let next : (tick + 12) / 12 + i ≡ x + 1 = omega arith in
      let last : (tick + 24) / 12 + i ≡ x + 2 = omega arith in
      (
        swung n variation (x % 3) + a,
        swung n variation ((x + 1) % 3) + b,
        swung n variation ((x + 2) % 3) + c,
        rw (output_of, one, ◌>>=◌, first, ◌>>=◌) refl,
        rw (output_of, two, ◌>>=◌, second, ◌>>=◌, next) refl,
        rw (output_of, three, ◌>>=◌, third, ◌>>=◌, last) refl,
        omega (arith, rest, swung-cycle n variation x (ground (arith, h))),
      )

-- Without a surplus, and with at least three planets and a variation that is at most a producer's
-- share, the schedule exists. At any tick and at the ticks 12 and 24 later, the producers of a
-- resource together make exactly what the world consumes of it in three ticks.
pub balanced_production_cycle :
    (planets upkeep variation tick : ℕ) (r : Resource)
    → 3 ≤ planets
    → variation ≤ planets * upkeep / length (producers planets r)
    → (produce : ℕ → ℕ → Option ℕ) × (a b c : ℕ) × (balanced_production planets upkeep variation
          no_surplus
        ≡ some produce)
      × (output_of produce tick (producers planets r) ≡ some a)
      × (output_of produce (tick + 12) (producers planets r) ≡ some b)
      × (output_of produce (tick + 24) (producers planets r) ≡ some c)
      × (a + b + c ≡ 3 * (planets * upkeep))
unfolding balanced_production base_for
balanced_production_cycle planets upkeep variation tick r h k =
    let base = base_of_all planets upkeep in
    let makers = producers planets r in
    let (a, b, c, first, second, third, sum) =
      shares-cycle base variation tick (planets * upkeep / length makers)
        (planets * upkeep % length makers) 0 makers k (base_for-entries planets upkeep r) in
    let enough : ltb planets 3 ≡ false = ground (arith, h) in
    (
      balanced_output base variation no_surplus,
      a,
      b,
      c,
      rw (enough, balanced_production) refl,
      first,
      second,
      third,
      omega (arith, sum, base_for-sum planets upkeep r h),
    )
