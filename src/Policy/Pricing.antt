-- ===== src/Policy/Pricing.antt =====
-- bazaar_client/policy/pricing.py. A ratio of the code, a float, is a fraction: 1.2 is 12/10 and
-- 2.5 * 1.25 ** k is 5 * 5 ** k / (2 * 4 ** k). A cap on payments is a number of halves. `none` is a
-- raised `CannotAfford`.
pub mod Terms
use spaceport_bazzar_client.Base.{
  ltb, leb, if◌then◌else◌, ◌==◌, nat_eq, ◌>>=◌, ℕ, ◌+◌, ◌-◌, ◌*◌, ◌/◌, ◌^◌, min, max, Bool, true,
  false, ◌&&◌, ◌||◌, Option, none, some,
}
use spaceport_bazzar_client.Base.Float.{Ratio, ratio}
use spaceport_bazzar_client.Domain.Bundle.{Resource, resource_eq, Bundle, get, single}
use spaceport_bazzar_client.Domain.Types.{object_eq}
use spaceport_bazzar_client.Policy.Reserves.{Urgency, calm, watch, critical}

abbrev pub max_premium_ratio : ℕ
max_premium_ratio = 8

abbrev pub max_trade_size : ℕ
max_trade_size = 4

abbrev pub max_bulk_trade_size : ℕ
max_bulk_trade_size = 12

abbrev pub spare_per_bulk_unit : ℕ
spare_per_bulk_unit = 4

abbrev pub end_game_ratio : ℕ
end_game_ratio = 2

-- `premium_for` without a stock
abbrev pub premium_of_urgency : Urgency → Ratio
premium_of_urgency calm = ratio 1 1
premium_of_urgency watch = ratio 12 10
premium_of_urgency critical = ratio 2 1

-- `min(2.5 * 1.25 ** k, MAX_PREMIUM_RATIO)`
abbrev pub desperate_premium : ℕ → Ratio
desperate_premium k =
    if leb (5 * 5 ^ k) (max_premium_ratio * (2 * 4 ^ k))
    then ratio (5 * 5 ^ k) (2 * 4 ^ k)
    else ratio max_premium_ratio 1

-- `premium_for` on a stock
unfoldable pub premium_of_stock : ℕ → Ratio
premium_of_stock stock =
    if leb 20 stock
    then ratio 1 1
    else if leb 15 stock
    then ratio 12 10
    else if leb 10 stock
    then ratio 3 2
    else if leb 7 stock
    then ratio (8 + (9 - stock)) 4
    else desperate_premium (7 - stock)

unfoldable pub premium_for : Urgency → Option ℕ → Ratio
unfolding premium_of_stock
premium_for urgency none = premium_of_urgency urgency
premium_for urgency (some stock) = premium_of_stock stock

-- A spare below 0, possible in the code, gives what 0 gives.
unfoldable pub trade_size : ℕ → ℕ
trade_size spare = max max_trade_size (min max_bulk_trade_size (spare / spare_per_bulk_unit))

-- The cap of `desired_quantity`.
abbrev pub quantity_cap : Option ℕ → ℕ → ℕ
quantity_cap none size = max max_trade_size size
quantity_cap (some stock) size =
    let cap = if leb 15 stock && ltb stock 20 then 5 else max_trade_size in
    if leb 20 stock then max cap size else cap

unfoldable pub desired_quantity : ℕ → Option ℕ → ℕ → ℕ
desired_quantity deficit stock size = max 1 (min deficit (quantity_cap stock size))

-- `math.floor(want_qty * ratio + 0.5)`
abbrev pub half_up : ℕ → Ratio → ℕ
half_up n q = (2 * (n * q.num) + q.den) / (2 * q.den)

unfoldable pub priced_give_quantity : ℕ → Urgency → Option ℕ → ℕ
priced_give_quantity want_qty urgency stock =
    max want_qty (min (half_up want_qty (premium_for urgency stock)) (want_qty * max_premium_ratio))

-- The quantities that `compute_terms` gives and asks for, from what is affordable: the three cases
-- after its guards.
unfoldable pub term_quantities : ℕ → ℕ → Urgency → Option ℕ → Option ℕ → Bool → Option (ℕ × ℕ)
unfolding priced_give_quantity
term_quantities affordable want_qty urgency (some halves) stock end_game =
    let give = min affordable (want_qty * halves / 2) in
    if give == 0 then none else some (give, want_qty)
term_quantities affordable want_qty urgency none stock true =
    let want = max 1 (min want_qty (affordable / end_game_ratio)) in
    some (min affordable (want * end_game_ratio), want)
term_quantities affordable want_qty urgency none stock false =
    let give = priced_give_quantity want_qty urgency stock in
    let q = premium_for urgency stock in
    if ltb affordable give
    then (let want = max 1 (affordable * q.den / q.num) in
        some (min affordable (priced_give_quantity want urgency stock), want))
    else some (give, want_qty)

unfoldable pub compute_terms :
    Resource
    → ℕ
    → Resource
    → Bundle
    → Urgency
    → Option ℕ
    → Option ℕ
    → Bool
    → Option (Bundle × Bundle)
unfolding term_quantities
compute_terms want want_qty give_resource available urgency limit stock end_game =
    if want == give_resource || want_qty == 0 || get available give_resource == 0 then none else do
      (give, receive) ←
          term_quantities (get available give_resource) want_qty urgency limit stock end_game
      some (single give_resource give, single want receive)
