-- ===== src/Policy/Tests/Planet.antt =====
-- A planet and what it remembers (bazaar_client/policy/).
use spaceport_bazzar_client.Base.{nat_eq, ℕ, ◌≡◌, refl, true, false, none, some, [], ◌∷◌}
use spaceport_bazzar_client.Domain.Bundle.{
  water, food, components, resource_eq, Bundle, zero_bundle,
}
use spaceport_bazzar_client.Domain.Types.{object_eq, Rules, StationObservation}
use spaceport_bazzar_client.Policy.Memory.{
  PolicyMemory, new_memory, median_round_trip, min_recent_production,
}
use spaceport_bazzar_client.Policy.Reserves.{
  calm, safety_ticks, compute_reserve, compute_urgency, production_payment_limit, over_ceiling,
}

abbrev pub rules_of_play : Rules
rules_of_play = record {
  rules_version = "v1";
  duration_ticks = 120;
  tick_duration_ms = 5000;
  resource_order = water ∷ food ∷ components ∷ [];
  max_health = 100;
  shortage_damage_per_unit = 5;
  recovery_per_fully_supplied_tick = 5;
  max_publication_ttl_ticks = 10;
  max_offer_ttl_ticks = 10;
  new_commands_per_station_per_tick = 4;
  max_request_records_per_station = 1000;
  max_open_outgoing_offers = 6;
  max_command_bytes = 16384;
}

-- A bundle from its three quantities.
abbrev pub of : ℕ → ℕ → ℕ → Bundle
of w f c = record { water = w; food = f; components = c }

-- A water planet in poor health.
abbrev pub planet : StationObservation
planet = record {
  station_id = 1;
  inventory = of 40 12 90;
  health = 30;
  failed_once = false;
  first_failure_tick = none;
  last_production = of 3 0 0;
  last_unmet_upkeep = zero_bundle;
  fully_supplied_ticks = 4;
  shortage_ticks = 1;
  current_shortage_streak = 0;
  longest_shortage_streak = 1;
  produced_total = of 15 0 0;
  consumed_total = of 5 4 5;
  unmet_total = of 0 1 0;
  imported_total = zero_bundle;
  exported_total = zero_bundle;
  upkeep_per_tick = of 2 1 1;
  specialty = water;
}

-- Four trades took two to nine ticks, and one tick produced less than the upkeep.
abbrev pub memory : PolicyMemory
memory = record new_memory {
  round_trips = 9 ∷ 2 ∷ 3 ∷ 4 ∷ [];
  productions = 3 ∷ 1 ∷ [];
  stored_reserve = of 2 0 1;
}

-- The median of 3.5 is rounded to 4: five ticks, two for poor health and one for the dip.
pub ticks_of_water : safety_ticks water rules_of_play planet memory ≡ 8
unfolding safety_ticks median_round_trip min_recent_production
ticks_of_water = refl

-- The buffer of 15 units is full; of the components, 8 are kept and 7 are saved.
pub reserve_of_planet :
    (compute_reserve rules_of_play planet memory planet.inventory).0 ≡ of 15 7 15
unfolding compute_reserve safety_ticks median_round_trip min_recent_production
reserve_of_planet = refl

-- Ninety components against twelve food: over the ceiling of forty.
pub components_piled : over_ceiling components planet.inventory (some water) ≡ true
unfolding over_ceiling
components_piled = refl

pub stocked_is_calm : compute_urgency (of 25 25 25) (of 1 1 1) (of 5 5 5) food ≡ calm
unfolding compute_urgency
stocked_is_calm = refl

pub half_in_the_middle : production_payment_limit (of 30 0 0) planet none ≡ some 1
unfolding production_payment_limit
half_in_the_middle = refl
