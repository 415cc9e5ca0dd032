-- ===== src/Base/Float.antt =====
-- Python's floats where the program computes with them: nonnegative doubles, each as the fraction
-- that it is. An operation rounds the exact result to 53 bits, a tie to the even neighbour. The
-- range of the exponent is not modelled: the program's numbers are far from its ends.
use Prim.Native.Nat.{ℕ, zero, suc, ◌+◌, ◌-◌, ◌*◌, ◌/◌, ◌%◌, ◌^◌}
use mathlib.Core.Bool.{Bool, true, false}
use mathlib.Core.List.{List, [], ◌∷◌}
use Prim.Native.Nat.{◌≤◌, ◌<◌}
use mathlib.Core.Logic.{inl, inr}
use mathlib.Core.Path.{ap}
use native.Mathlib.Nat.{pow-suc}
use native.Mathlib.Omega.{arith}
use spaceport_bazzar_client.Base.Tests.{ltb, leb, if◌then◌else◌, ◌==◌, nat_eq, Bool-cases}

pub record Ratio : Type 0 where
  pub num : ℕ
  pub den : ℕ

abbrev pub ratio : ℕ → ℕ → Ratio
ratio n d = record { num = n; den = d }

-- `a < b` and `a <= b`, exactly
abbrev pub ltb_ratio : Ratio → Ratio → Bool
ltb_ratio a b = ltb (a.num * b.den) (b.num * a.den)

abbrev pub leb_ratio : Ratio → Ratio → Bool
leb_ratio a b = leb (a.num * b.den) (b.num * a.den)

-- How often `n` is doubled before it is at least `bound`.
pub doublings : ℕ → ℕ → ℕ → ℕ
doublings zero n bound = 0
doublings (suc fuel) n bound = elim (ltb n bound) [
  | true ↦ suc (doublings fuel (2 * n) bound)
  | false ↦ 0
]

-- The fuel is enough where start and fuel reach the bound: every round but the last doubles.
doublings_reach :
    (fuel n bound : ℕ) → 0 < n → bound ≤ n + fuel → bound ≤ 2 ^ doublings fuel n bound * n
unfolding doublings
doublings_reach zero n bound some_n h = omega (arith, h)
doublings_reach (suc fuel) n bound some_n h = elim (Bool-cases (ltb n bound)) [
  | inr there ↦ rw (doublings, there) (ground arith)
  | inl below ↦
      let later =
        doublings_reach fuel (2 * n) bound (omega (arith, some_n)) (omega (arith, h, some_n)) in
      let doubled = ap (λ x. x * n) (pow-suc 2 (doublings fuel (2 * n) bound)) in
      rw (doublings, below) (omega (arith, later, doubled))
]

-- `a / b` to the nearest number, a half to the even one
abbrev pub half_even : ℕ → ℕ → ℕ
half_even a b =
    let q = a / b in
    let r = a % b in
    if ltb (2 * r) b then q else if ltb b (2 * r) then q + 1 else if q % 2 == 0 then q else q + 1

-- The double nearest to `n / d`. `n` is scaled up, or `d`, until the quotient has 53 bits; the
-- bound itself is fuel enough, as each round doubles.
unfoldable pub nearest : ℕ → ℕ → Ratio
unfolding doublings
nearest n d =
    if n == 0
    then ratio 0 1
    else (let up = doublings (d * 2 ^ 52) n (d * 2 ^ 52) in
        let down = doublings n (d * 2 ^ 53) (n + 1) in
        ratio (half_even (n * 2 ^ up) (d * 2 ^ down) * 2 ^ down) (2 ^ up))

abbrev pub float : ℕ → Ratio
float n = nearest n 1

abbrev pub fl_add : Ratio → Ratio → Ratio
fl_add a b = nearest (a.num * b.den + b.num * a.den) (a.den * b.den)

-- `a - b`, where `b <= a`
abbrev pub fl_sub : Ratio → Ratio → Ratio
fl_sub a b = nearest (a.num * b.den - b.num * a.den) (a.den * b.den)

abbrev pub fl_mul : Ratio → Ratio → Ratio
fl_mul a b = nearest (a.num * b.num) (a.den * b.den)

abbrev pub fl_div : Ratio → Ratio → Ratio
fl_div a b = nearest (a.num * b.den) (a.den * b.num)

abbrev pub exact_sum : List Ratio → Ratio
exact_sum [] = ratio 0 1
exact_sum (a ∷ l) = let s = exact_sum l in ratio (a.num * s.den + s.num * a.den) (a.den * s.den)

-- `sum(l)` of Python 3.12, which carries the lost part of each addition along: for the few terms
-- of the program, it rounds the exact sum once.
abbrev pub fl_sum : List Ratio → Ratio
fl_sum l = let s = exact_sum l in nearest s.num s.den
