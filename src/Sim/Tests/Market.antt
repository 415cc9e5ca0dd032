-- ===== src/Sim/Tests/Market.antt =====
-- Two planets that trade, and one that starves (bazaar_sim/economy.py).
use spaceport_bazzar_client.Base.{
  All, ℕ, ◌<◌, ◌≡◌, refl, true, false, Option, none, some, List, [], ◌∷◌, arith,
}
use spaceport_bazzar_client.Domain.Bundle.{
  Resource, water, food, components, Bundle, zero_bundle, single, add, dominates, sub,
  saturating_sub, is_zero, total,
}
use spaceport_bazzar_client.Domain.Types.{ResultCode, ObjectId, Rules}
use spaceport_bazzar_client.Execution.Actions.{OfferAction, Action}
use spaceport_bazzar_client.Sim.Station.{SimStation, new_station, settle_tick, IsSound}
use spaceport_bazzar_client.Sim.Economy.{
  CommandOutcome, refused, is_ok, Economy, precheck, dispatch, counted, execute, advance_tick,
  new_economy,
}
use spaceport_bazzar_client.Sim.Economy.Invariant.{IsKnown, IsValid}
use spaceport_bazzar_client.Sim.Economy.Invariant.Commands.{execute-IsValid}
use spaceport_bazzar_client.Sim.Economy.Invariant.Start.{
  stock_of, new_station-IsSound, new_economy-IsValid,
}

-- `DEFAULT_RULES`
abbrev pub default_rules : Rules
default_rules = record {
  rules_version = "bazaar-sim-1";
  duration_ticks = 120;
  tick_duration_ms = 5000;
  resource_order = water ∷ food ∷ components ∷ [];
  max_health = 100;
  shortage_damage_per_unit = 5;
  recovery_per_fully_supplied_tick = 5;
  max_publication_ttl_ticks = 10;
  max_offer_ttl_ticks = 10;
  new_commands_per_station_per_tick = 4;
  max_request_records_per_station = 1000;
  max_open_outgoing_offers = 6;
  max_command_bytes = 16384;
}

abbrev pub stock_of_ten : Bundle
stock_of_ten = record { water = 10; food = 10; components = 10 }

abbrev pub roster : List SimStation
roster = new_station 1 water stock_of_ten ∷ new_station 2 food stock_of_ten ∷ []

abbrev pub market : Economy
market = new_economy roster default_rules 7

abbrev pub deal : OfferAction
deal = record {
  recipient_id = 2;
  give = record { water = 3; food = 0; components = 0 };
  receive = record { water = 0; food = 2; components = 0 };
  expires_tick = 5;
}

abbrev pub post : Action
post = Action.offer deal

abbrev pub take : Action
take = Action.accept (ObjectId.offer 1)

abbrev pub world_of : Option (CommandOutcome × Economy) → Economy → Economy
world_of none e = e
world_of (some (_, e)) _ = e

abbrev pub outcome_of : Option (CommandOutcome × Economy) → CommandOutcome
outcome_of none = refused ResultCode.not_found
outcome_of (some (out, _)) = out

abbrev pub offered : Economy
offered = world_of (execute 1 post market) market

abbrev pub traded : Economy
traded = world_of (execute 2 take offered) offered

abbrev pub economy_or : Economy → Option Economy → Economy
economy_or e none = e
economy_or _ (some e) = e

abbrev pub ticked_once : Economy
ticked_once = economy_or traded (advance_tick traded)

abbrev pub station_or : SimStation → Option SimStation → SimStation
station_or s none = s
station_or _ (some s) = s

-- A water planet without stock and with little health: it starves at its next tick.
abbrev pub weak : SimStation
weak = record (new_station 3 water zero_bundle) { health = 8; production = 1 }

abbrev pub starved_once : SimStation
starved_once = station_or weak (settle_tick default_rules 4 weak)

abbrev pub starved_twice : SimStation
starved_twice = station_or starved_once (settle_tick default_rules 5 starved_once)

pub posting : execute 1 post market ≡ some (outcome_of (execute 1 post market), offered)
unfolding new_economy execute precheck dispatch counted is_zero dominates
posting = refl

pub taking : execute 2 take offered ≡ some (outcome_of (execute 2 take offered), traded)
unfolding new_economy execute precheck dispatch counted is_zero dominates sub
taking = refl

pub ticking : advance_tick traded ≡ some ticked_once
unfolding new_economy execute precheck dispatch counted is_zero dominates sub advance_tick
    settle_tick saturating_sub add single total
ticking = refl

pub starving : settle_tick default_rules 4 weak ≡ some starved_once
unfolding settle_tick sub is_zero saturating_sub add single total
starving = refl

pub starving_again : settle_tick default_rules 5 starved_once ≡ some starved_twice
unfolding settle_tick sub is_zero saturating_sub add single total
starving_again = refl

pub taking_is_ok : is_ok (outcome_of (execute 2 take offered)).code ≡ true
unfolding new_economy execute precheck dispatch counted is_zero dominates sub
taking_is_ok = refl

-- The recipient of an offer may not withdraw it.
abbrev pub meddle : Action
meddle = Action.withdraw (ObjectId.offer 1)

pub meddling :
    execute 2 meddle offered
    ≡ some (outcome_of (execute 2 meddle offered), world_of (execute 2 meddle offered) offered)
unfolding new_economy execute precheck dispatch counted is_zero dominates
meddling = refl

pub meddling_fails : is_ok (outcome_of (execute 2 meddle offered)).code ≡ false
unfolding new_economy execute precheck dispatch counted is_zero dominates
meddling_fails = refl

pub water_is_gone : is_zero starved_once.last_unmet ≡ false
unfolding settle_tick sub is_zero saturating_sub add single total
water_is_gone = refl

pub starved_has_failed : starved_once.failed_once ≡ true
unfolding settle_tick sub is_zero saturating_sub add single total
starved_has_failed = refl

pub new_planet-IsSound :
    (sid : ℕ) (r : Resource) → IsSound default_rules stock_of_ten (new_station sid r stock_of_ten)
new_planet-IsSound sid r = new_station-IsSound default_rules sid r stock_of_ten (omega arith)

pub roster-IsSound : All (λ s. IsSound default_rules s.inventory s) roster
roster-IsSound = (new_planet-IsSound 1 water, (new_planet-IsSound 2 food, tt))

abbrev pub starts : ℕ → Bundle
starts = stock_of market.stations

pub market-IsValid : IsValid starts market
market-IsValid = new_economy-IsValid roster default_rules 7 roster-IsSound

pub offered-IsValid : IsValid starts offered
offered-IsValid = execute-IsValid starts 1 post market _ offered market-IsValid posting

pub traded-IsValid : IsValid starts traded
traded-IsValid = execute-IsValid starts 2 take offered _ traded offered-IsValid taking

pub traded_health : 0 < traded.rules.max_health
unfolding new_economy execute precheck dispatch counted is_zero dominates sub
traded_health = omega arith

pub knows_two : IsKnown 2 offered.stations
unfolding new_economy execute precheck dispatch counted is_zero dominates
knows_two = λ e. cc
