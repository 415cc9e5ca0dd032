-- ===== src/Sim/Station.antt =====
-- `SimStation` of bazaar_sim/economy.py: one planet and what a tick does to it. Quantities are
-- natural numbers, as a bundle refuses negative ones; `none` is a raised `NegativeBundleError`.
pub mod Tick
use spaceport_bazzar_client.Base.{
  if◌then◌else◌, ◌==◌, nat_eq, ◌>>=◌, ℕ, ◌+◌, ◌-◌, ◌*◌, ◌≤◌, ◌<◌, min, max, String, ◌≡◌, Bool, true,
  false, not, ◌&&◌, Option, none, some,
}
use spaceport_bazzar_client.Domain.Bundle.{
  Resource, water, food, components, resource_eq, Bundle, get, zero_bundle, single, add, sub,
  saturating_sub, is_zero, total,
}
use spaceport_bazzar_client.Domain.Types.{object_eq, Rules, StationObservation}

pub record SimStation : Type 0 where
  pub station_id : ℕ
  pub specialty : Resource
  pub inventory : Bundle
  pub production : ℕ
  pub upkeep : Bundle
  pub display_name : String
  pub health : ℕ
  pub failed_once : Bool
  pub first_failure_tick : Option ℕ
  pub shortage_ticks : ℕ
  pub fully_supplied_ticks : ℕ
  pub current_shortage_streak : ℕ
  pub longest_shortage_streak : ℕ
  pub last_production : Bundle
  pub last_unmet : Bundle
  pub produced_total : Bundle
  pub consumed_total : Bundle
  pub unmet_total : Bundle
  pub imported : Bundle
  pub exported : Bundle

-- `SimStation(station_id, specialty, inventory)` with the defaults of the fields
abbrev pub new_station : ℕ → Resource → Bundle → SimStation
new_station sid specialty stock = record {
  station_id = sid;
  specialty = specialty;
  inventory = stock;
  production = 3;
  upkeep = record { water = 1; food = 1; components = 1 };
  display_name = "";
  health = 100;
  failed_once = false;
  first_failure_tick = none;
  shortage_ticks = 0;
  fully_supplied_ticks = 0;
  current_shortage_streak = 0;
  longest_shortage_streak = 0;
  last_production = zero_bundle;
  last_unmet = zero_bundle;
  produced_total = zero_bundle;
  consumed_total = zero_bundle;
  unmet_total = zero_bundle;
  imported = zero_bundle;
  exported = zero_bundle;
}

-- The branch of `settle_tick` for a tick whose upkeep was met.
pub supplied : Rules → SimStation → SimStation
supplied rules s = record s {
  health = min rules.max_health (s.health + rules.recovery_per_fully_supplied_tick);
  fully_supplied_ticks = s.fully_supplied_ticks + 1;
  current_shortage_streak = 0;
}

-- The other branch. `-` stops at 0, as `max(0, …)` does.
pub starved : Rules → ℕ → Bundle → SimStation → SimStation
starved rules tick unmet s =
    let health = s.health - total unmet * rules.shortage_damage_per_unit in
    let hurt : SimStation = record s {
      health = health;
      shortage_ticks = s.shortage_ticks + 1;
      current_shortage_streak = s.current_shortage_streak + 1;
      longest_shortage_streak = max s.longest_shortage_streak (s.current_shortage_streak + 1);
    } in
    if health == 0 && not s.failed_once
    then record hurt { failed_once = true; first_failure_tick = some tick }
    else hurt

-- Production, then upkeep: what `settle_tick` does before it looks at health.
pub produce_and_consume : SimStation → Option SimStation
produce_and_consume s = do
  let produced = single s.specialty s.production
  let stocked = add s.inventory produced
  let unmet = saturating_sub s.upkeep stocked
  consumed ← sub s.upkeep unmet
  some (record s {
    inventory = saturating_sub stocked s.upkeep;
    last_production = produced;
    last_unmet = unmet;
    produced_total = add s.produced_total produced;
    consumed_total = add s.consumed_total consumed;
    unmet_total = add s.unmet_total unmet;
  })

unfoldable pub settle_tick : Rules → ℕ → SimStation → Option SimStation
unfolding produce_and_consume supplied starved
settle_tick rules tick s = do
  paid ← produce_and_consume s
  some (
      if is_zero paid.last_unmet
      then supplied rules paid
      else starved rules tick paid.last_unmet paid)

unfoldable pub observation : SimStation → StationObservation
observation s = record {
  station_id = s.station_id;
  inventory = s.inventory;
  health = s.health;
  failed_once = s.failed_once;
  first_failure_tick = s.first_failure_tick;
  last_production = s.last_production;
  last_unmet_upkeep = s.last_unmet;
  fully_supplied_ticks = s.fully_supplied_ticks;
  shortage_ticks = s.shortage_ticks;
  current_shortage_streak = s.current_shortage_streak;
  longest_shortage_streak = s.longest_shortage_streak;
  produced_total = s.produced_total;
  consumed_total = s.consumed_total;
  unmet_total = s.unmet_total;
  imported_total = s.imported;
  exported_total = s.exported;
  upkeep_per_tick = s.upkeep;
  specialty = s.specialty;
}

-- Stock is what the station started with, plus production and imports, less upkeep and exports.
abbrev pub Balances : Bundle → SimStation → Type 0
Balances start s =
    (r : Resource)
    → get s.inventory r + get s.consumed_total r + get s.exported r
      ≡ get start r + get s.produced_total r + get s.imported r

-- Each tick's upkeep was either consumed or recorded as unmet.
abbrev pub Feeds : SimStation → Type 0
Feeds s =
    (r : Resource)
    → get s.consumed_total r + get s.unmet_total r
      ≡ (s.shortage_ticks + s.fully_supplied_ticks) * get s.upkeep r

abbrev pub is_some : Option ℕ → Bool
is_some none = false
is_some (some _) = true

-- Health is in range and above zero until the station fails; a failure has its tick.
pub record IsHealthy (rules : Rules) (s : SimStation) : Type 0 where
  pub capped : s.health ≤ rules.max_health
  pub alive : s.failed_once ≡ false → 0 < s.health
  pub dated : is_some s.first_failure_tick ≡ s.failed_once
  pub streak : s.current_shortage_streak ≤ s.longest_shortage_streak
  pub longest : s.longest_shortage_streak ≤ s.shortage_ticks

pub record IsSound (rules : Rules) (start : Bundle) (s : SimStation) : Type 0 where
  pub balances : Balances start s
  pub feeds : Feeds s
  pub healthy : IsHealthy rules s
