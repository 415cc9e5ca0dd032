-- ===== src/Policy/Accept.antt =====
-- bazaar_client/policy/accept.py: whether to settle an offer. Values of bundles are the program's
-- floats. A cap on payments is a number of halves. The reason of a decision is a text for people and
-- is left out.
pub mod Safety
use spaceport_bazzar_client.Base.{
  ltb, leb, if◌then◌else◌, ◌==◌, nat_eq, ◌>>=◌, length, keep_if, any, ℕ, ◌+◌, ◌-◌, ◌*◌, min, Bool,
  true, false, not, ◌&&◌, ◌||◌, Option, none, some, map,
}
use spaceport_bazzar_client.Base.Float.{
  Ratio, ratio, ltb_ratio, leb_ratio, nearest, float, fl_add, fl_mul, fl_div, fl_sum,
}
use spaceport_bazzar_client.Domain.Bundle.{
  Resource, water, food, components, resource_eq, resources, Bundle, get, add, dominates,
  saturating_sub, is_zero, total,
}
use spaceport_bazzar_client.Domain.Types.{
  object_eq, Offer, what_station_pays, what_station_receives,
}
use spaceport_bazzar_client.Policy.Reserves.{
  Urgency, calm, watch, critical, level, over_ceiling, comfortably_supplied,
}
use spaceport_bazzar_client.Policy.Pricing.{end_game_ratio, premium_for}

-- `MIN_ACCEPT_RATIO`, the double nearest to 0.8
abbrev pub min_accept_ratio : Ratio
min_accept_ratio = nearest 8 10

-- `any(test(r) for r in Resource)`
abbrev pub some_resource : (Resource → Bool) → Bool
some_resource test = test water || test food || test components

-- One weight of `need_weights`.
abbrev pub need_weight : Urgency → Ratio
need_weight critical = ratio 3 1
need_weight watch = fl_add (ratio 1 1) (nearest 3 10)
need_weight calm = ratio 1 1

unfoldable pub weighted_value : Bundle → (Resource → Urgency) → Ratio
weighted_value b urgency =
    fl_sum (map (λ r. fl_mul (float (get b r)) (need_weight (urgency r))) resources)

-- `specialty is not None and cost.total() == cost.get(specialty)`
abbrev pub pays_with_specialty : Bundle → Option Resource → Bool
pays_with_specialty cost none = false
pays_with_specialty cost (some s) = total cost == get cost s

-- The refusals of a planet that is well supplied.
unfoldable pub is_unneeded : Bundle → Bundle → Bundle → Option Resource → Bool → Bool
is_unneeded cost gain available none end_game = false
is_unneeded cost gain available (some s) end_game =
    comfortably_supplied available
    && (ltb 0 (get gain s)
        || leb (total gain) (total cost) && not (end_game && pays_with_specialty cost (some s)))

-- Something is imported, and every import is over its ceiling.
unfoldable pub is_piled_up : Bundle → Bundle → Option Resource → Bool
is_piled_up gain available none = false
is_piled_up gain available (some s) =
    let imported = keep_if (λ r. not (r == s) && ltb 0 (get gain r)) resources in
    not (length imported == 0) && not (any (λ r. not (over_ceiling r available (some s))) imported)

-- `available.saturating_sub(cost) + gain`
abbrev pub remaining : Bundle → Bundle → Bundle → Bundle
remaining available cost gain = add (saturating_sub available cost) gain

-- The branch for a cap on payments.
unfoldable pub accepts_capped : ℕ → Bundle → Bundle → Bundle → Bundle → Bool
accepts_capped halves cost gain available reserve =
    not (halves == 0 || ltb (total gain * halves) (2 * total cost))
    && not (
        some_resource
          (λ r. ltb 0 (get cost r) && ltb (get (remaining available cost gain) r) (get reserve r)))

-- The price that an import is worth, from its own stock.
abbrev pub import_price : Bool → Urgency → ℕ → Ratio
import_price end_game urgency stock =
    let premium = premium_for urgency (some stock) in
    let price = nearest premium.num premium.den in
    if end_game && ltb_ratio price (ratio end_game_ratio 1) then ratio end_game_ratio 1 else price

-- `value` of the branch that pays with the specialty.
unfoldable pub import_value : Resource → Bundle → Bundle → (Resource → Urgency) → Bool → Ratio
import_value s gain available urgency end_game = fl_sum (
    map (λ r. fl_mul (float (get gain r)) (import_price end_game (urgency r) (get available r)))
      (keep_if (λ r. not (r == s)) resources))

-- The branch that pays with the specialty `s`.
unfoldable pub accepts_for_specialty :
    Resource → Bundle → Bundle → Bundle → Bundle → (Resource → Urgency) → Bool → Bool
accepts_for_specialty s cost gain available reserve urgency end_game =
    let net_cost = get cost s - get gain s in
    let value = import_value s gain available urgency end_game in
    not (ltb (get available s) (get reserve s + net_cost))
    && leb_ratio (ratio net_cost 1) value
    && ltb 0 value.num

-- The last branch: a barter of other goods.
unfoldable pub accepts_barter : Bundle → Bundle → Bundle → Bundle → (Resource → Urgency) → Bool
unfolding weighted_value
accepts_barter cost gain available reserve urgency =
    let fills_need = some_resource (λ r. ltb 0 (get gain r) && not (level (urgency r) == 0)) in
    let left = remaining available cost gain in
    let breaches_reserve =
      some_resource
        (λ r. ltb (get left r) (get reserve r) && ltb (get reserve r) (get available r)) in
    let cost_value = weighted_value cost urgency in
    let worth =
      if cost_value.num == 0 then ratio 0 1 else fl_div (weighted_value gain urgency) cost_value in
    not (breaches_reserve && not fills_need)
    && (fills_need && leb_ratio min_accept_ratio worth || leb_ratio (ratio 1 1) worth)

-- The choice of the branch, once the offer can be paid and leaves the reserve alone.
unfoldable pub accepts_price :
    Option ℕ
    → Option Resource
    → Bundle
    → Bundle
    → Bundle
    → Bundle
    → (Resource → Urgency)
    → Bool
    → Bool
unfolding accepts_for_specialty accepts_barter
accepts_price (some halves) specialty cost gain available reserve urgency end_game =
    accepts_capped halves cost gain available reserve
accepts_price none none cost gain available reserve urgency end_game =
    accepts_barter cost gain available reserve urgency
accepts_price none (some s) cost gain available reserve urgency end_game =
    if pays_with_specialty cost (some s)
    then accepts_for_specialty s cost gain available reserve urgency end_game
    else accepts_barter cost gain available reserve urgency

-- `evaluate_incoming`, on what the station pays and receives
unfoldable pub accepts :
    Bundle
    → Bundle
    → Bundle
    → Bundle
    → (Resource → Urgency)
    → Option Resource
    → Option ℕ
    → Bool
    → Bool
unfolding accepts_price
accepts cost gain available reserve urgency specialty limit end_game =
    if is_unneeded cost gain available specialty end_game
    then false
    else if is_zero cost
    then true
    else if is_piled_up gain available specialty
    then false
    else if not (dominates available cost)
    then false
    else if some_resource
        (λ r. ltb (get (remaining available cost gain) r) (min (get available r) (get reserve r)))
    then false
    else accepts_price limit specialty cost gain available reserve urgency end_game

-- `evaluate_incoming`; `none` is the `ValueError` for a station that is no party to the offer
unfoldable pub evaluate_incoming :
    Offer
    → ℕ
    → Bundle
    → Bundle
    → (Resource → Urgency)
    → Option Resource
    → Option ℕ
    → Bool
    → Option Bool
unfolding accepts
evaluate_incoming o sid available reserve urgency specialty limit end_game = do
  cost ← what_station_pays o sid
  gain ← what_station_receives o sid
  some (accepts cost gain available reserve urgency specialty limit end_game)
