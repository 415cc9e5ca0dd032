-- ===== src/Sim/World/Balance.antt =====
-- The base outputs of balanced production (bazaar_sim/world.py).
use native.Mathlib.Nat.{div-add-mod, mod-lt}
use spaceport_bazzar_client.Base.{
  length, sum_by, ℕ, zero, suc, ◌+◌, ◌-◌, ◌*◌, ◌/◌, ◌%◌, ◌≤◌, ◌<◌, ◌≡◌, List, [], ◌∷◌, arith,
}
use spaceport_bazzar_client.Domain.Bundle.{Resource}
use spaceport_bazzar_client.Sim.World.{producers, shares, base_for}

-- From a rank on, the shares of the producers, each one more while the rest lasts.
shares-sum :
    (share extra rank : ℕ) (makers : List ℕ)
    → extra ≤ rank + length makers
    → sum_by (λ (m : ℕ × ℕ). m.1) (shares share extra rank makers)
      ≡ length makers * share + (extra - rank)
unfolding shares
shares-sum share extra rank [] h = omega (arith, h)
shares-sum share extra rank (i ∷ makers) h =
    let later = shares-sum share extra (rank + 1) makers (omega (arith, h)) in
    ground (arith, later, h)

producers-some : (planets : ℕ) (r : Resource) → 3 ≤ planets → 0 < length (producers planets r)
producers-some zero r h = absurd (omega (arith, h))
producers-some (suc zero) r h = absurd (omega (arith, h))
producers-some (suc (suc zero)) r h = absurd (omega (arith, h))
producers-some (suc (suc (suc n))) Resource.water h = ground arith
producers-some (suc (suc (suc n))) Resource.food h = ground arith
producers-some (suc (suc (suc n))) Resource.components h = ground arith

-- With at least three planets, the base outputs of the producers of a resource add up to what the
-- world consumes of it in a tick.
pub base_for-sum :
    (planets upkeep : ℕ) (r : Resource)
    → 3 ≤ planets
    → sum_by (λ (m : ℕ × ℕ). m.1) (base_for planets upkeep r) ≡ planets * upkeep
unfolding base_for
base_for-sum planets upkeep r h =
    let makers = producers planets r in
    let need = planets * upkeep in
    let some_maker = producers-some planets r h in
    omega (
      arith,
      shares-sum (need / length makers) (need % length makers) 0 makers
          (omega (arith, mod-lt need some_maker)),
      div-add-mod need (length makers),
    )
