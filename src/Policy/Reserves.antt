-- ===== src/Policy/Reserves.antt =====
-- bazaar_client/policy/reserves.py: how much stock is kept back. A payment limit, the float 0.0 or
-- 0.5 of the source, is a number of halves.
pub mod Bounds
pub mod Balance
use spaceport_bazzar_client.Base.{
  ltb, leb, if◌then◌else◌, ◌==◌, nat_eq, keep_if, ℕ, ◌+◌, ◌-◌, ◌*◌, ◌/◌, min, max, Bool, false, not,
  ◌&&◌, Option, none, some, List, [], ◌∷◌, map,
}
use spaceport_bazzar_client.Domain.Bundle.{
  Resource, resource_eq, resources, Bundle, get, bundle_of, all_resources, saturating_sub,
}
use spaceport_bazzar_client.Domain.Types.{object_eq, Rules, StationObservation}
use spaceport_bazzar_client.Policy.Memory.{PolicyMemory, median_round_trip, min_recent_production}

abbrev pub min_safety_ticks : ℕ
min_safety_ticks = 3

abbrev pub max_safety_ticks : ℕ
max_safety_ticks = 10

abbrev pub low_health_extra_ticks : ℕ
low_health_extra_ticks = 2

abbrev pub production_variance_extra_ticks : ℕ
production_variance_extra_ticks = 1

abbrev pub watch_stock : ℕ
watch_stock = 20

abbrev pub critical_stock : ℕ
critical_stock = 10

abbrev pub production_normal_ticks : ℕ
production_normal_ticks = 25

abbrev pub production_stop_ticks : ℕ
production_stop_ticks = 10

abbrev pub storage_threshold : ℕ
storage_threshold = 32

abbrev pub max_reserve_units : ℕ
max_reserve_units = 15

abbrev pub balance_gap : ℕ
balance_gap = 10

abbrev pub import_ceiling_floor : ℕ
import_ceiling_floor = 2 * watch_stock

abbrev pub end_game_ticks : ℕ
end_game_ticks = 10

abbrev pub stock_cap : ℕ
stock_cap = 100

pub data Urgency : Type 0 where
  calm watch critical : Urgency

-- `IntEnum` order
abbrev pub level : Urgency → ℕ
level calm = 0
level watch = 1
level critical = 2

-- The base of `safety_ticks`, before the extras.
pub base_ticks : Option ℕ → ℕ
base_ticks none = min_safety_ticks
base_ticks (some observed) = max min_safety_ticks (observed + 1)

-- `lowest is not None and lowest < upkeep`
abbrev pub dipped : Option ℕ → ℕ → Bool
dipped none upkeep = false
dipped (some lowest) upkeep = ltb lowest upkeep

unfoldable pub safety_ticks : Resource → Rules → StationObservation → PolicyMemory → ℕ
unfolding base_ticks median_round_trip min_recent_production
safety_ticks r rules station m =
    let weak = if ltb station.health (rules.max_health / 2) then low_health_extra_ticks else 0 in
    let risky =
      if r == station.specialty && dipped (min_recent_production m) (get station.upkeep_per_tick r)
      then production_variance_extra_ticks
      else 0 in
    min (base_ticks (median_round_trip m) + weak + risky) max_safety_ticks

-- The upkeep buffer of `compute_reserve`.
pub buffer : Rules → StationObservation → PolicyMemory → Resource → ℕ
unfolding safety_ticks
buffer rules station m r =
    min max_reserve_units (get station.upkeep_per_tick r * safety_ticks r rules station m)

-- The saved surplus of `compute_reserve`, from the buffer, the stock and what was saved before.
pub saved_units : ℕ → ℕ → ℕ → ℕ
saved_units base have before =
    let kept = min before (min have (max_reserve_units - base)) in
    min (max_reserve_units - base) (kept + (have - kept - storage_threshold))

-- `compute_reserve` on the uncommitted stock: the reserve, and the memory that it writes
unfoldable pub compute_reserve :
    Rules → StationObservation → PolicyMemory → Bundle → Bundle × PolicyMemory
unfolding buffer saved_units
compute_reserve rules station m available =
    let saved = λ (r : Resource).
      saved_units (buffer rules station m r) (get available r) (get m.stored_reserve r) in
    (
      bundle_of (λ r. buffer rules station m r + saved r),
      record m { stored_reserve = bundle_of saved },
    )

-- `compute_urgency`, for one resource
unfoldable pub compute_urgency : Bundle → Bundle → Bundle → Resource → Urgency
compute_urgency available upkeep reserve r =
    let have = get available r in
    if ltb have (max critical_stock (get upkeep r))
    then critical
    else if ltb have (max watch_stock (get reserve r))
    then watch
    else calm

unfoldable pub surplus_above_reserve : Bundle → Bundle → Bundle
surplus_above_reserve available reserve = saturating_sub available reserve

unfoldable pub deficit_below_reserve : Bundle → Bundle → Bundle
deficit_below_reserve available reserve = saturating_sub reserve available

abbrev pub in_end_game : Option ℕ → Bool
in_end_game none = false
in_end_game (some ticks_left) = leb ticks_left end_game_ticks

unfoldable pub specialty_floor : StationObservation → Option ℕ → ℕ
specialty_floor station none =
    production_normal_ticks * get station.upkeep_per_tick station.specialty
specialty_floor station (some ticks_left) =
    let upkeep = get station.upkeep_per_tick station.specialty in
    if in_end_game (some ticks_left)
    then min production_normal_ticks (ticks_left + 1) * upkeep
    else production_normal_ticks * upkeep

unfoldable pub production_payment_limit : Bundle → StationObservation → Option ℕ → Option ℕ
unfolding specialty_floor
production_payment_limit available station ticks_left =
    let upkeep = get station.upkeep_per_tick station.specialty in
    let stock = get available station.specialty in
    if in_end_game ticks_left
    then (if ltb stock (specialty_floor station ticks_left) then some 0 else none)
    else if ltb stock (production_stop_ticks * upkeep)
    then some 0
    else if ltb stock (production_normal_ticks * upkeep)
    then some 1
    else none

-- `r == specialty` where the specialty may be `None`
abbrev pub is_specialty : Resource → Option Resource → Bool
is_specialty r none = false
is_specialty r (some s) = r == s

unfoldable pub imports : Option Resource → List Resource
imports specialty = keep_if (λ r. not (is_specialty r specialty)) resources

-- `min(l)` of a list that is not empty
pub least : ℕ → List ℕ → ℕ
least n [] = n
least n (m ∷ l) = least (min n m) l

unfoldable pub import_ceiling : Resource → Bundle → Option Resource → Option ℕ
unfolding imports least
import_ceiling r available specialty =
    let others = map (get available) (keep_if (λ s. not (s == r)) (imports specialty)) in
    if is_specialty r specialty then none else elim others [
      | [] ↦ none
      | n ∷ l ↦ some (max import_ceiling_floor (least n l + balance_gap))
    ]

unfoldable pub over_ceiling : Resource → Bundle → Option Resource → Bool
unfolding import_ceiling
over_ceiling r available specialty = elim (import_ceiling r available specialty) [
  | none ↦ false
  | some ceiling ↦ ltb ceiling (get available r)
]

-- the first of the candidates with the least stock, as `min` by `(stock, resource)` gives it
pub scarcest : Bundle → Resource → List Resource → Resource
scarcest available best [] = best
scarcest available best (r ∷ l) =
    scarcest available (if ltb (get available r) (get available best) then r else best) l

unfoldable pub scarcest_import : Bundle → Option Resource → Option Resource
unfolding imports scarcest
scarcest_import available specialty = elim (imports specialty) [
  | [] ↦ none
  | r ∷ l ↦ some (scarcest available r l)
]

unfoldable pub excess_over_cap : Bundle → Bundle
excess_over_cap available = bundle_of (λ r. get available r - stock_cap)

unfoldable pub comfortably_supplied : Bundle → Bool
comfortably_supplied available = all_resources (λ r. ltb 30 (get available r))
