-- ===== src/Sim/Station/Tick.antt =====
-- `SimStation.settle_tick`: it never raises, its ledger balances, and its health stays in range.
use spaceport_bazzar_client.Base.{
  if◌then◌else◌, ℕ, ◌+◌, ◌*◌, ◌≤◌, ◌<◌, ◌≡◌, ◌↔◌, true, false, some, arith,
}
use spaceport_bazzar_client.Domain.Bundle.{
  Resource, Bundle, get, single, add, saturating_sub, is_zero, total,
}
use spaceport_bazzar_client.Domain.Bundle.Laws.{
  get-add, get-saturating_sub, le→dominates, sub-eq_saturating_sub,
}
use spaceport_bazzar_client.Domain.Types.{Rules}
use spaceport_bazzar_client.Sim.Station.{
  SimStation, supplied, starved, produce_and_consume, settle_tick, Balances, Feeds, IsHealthy,
  IsSound,
}

abbrev stocked : SimStation → Bundle
stocked s = add s.inventory (single s.specialty s.production)

abbrev shortfall : SimStation → Bundle
shortfall s = saturating_sub s.upkeep (stocked s)

abbrev fed : SimStation → SimStation
fed s = record s {
  inventory = saturating_sub (stocked s) s.upkeep;
  last_production = single s.specialty s.production;
  last_unmet = shortfall s;
  produced_total = add s.produced_total (single s.specialty s.production);
  consumed_total = add s.consumed_total (saturating_sub s.upkeep (shortfall s));
  unmet_total = add s.unmet_total (shortfall s);
}

shortfall-le : (s : SimStation) (r : Resource) → get (shortfall s) r ≤ get s.upkeep r
shortfall-le s r = omega (arith, get-saturating_sub s.upkeep (stocked s) r)

produce_and_consume-fed : (s : SimStation) → produce_and_consume s ≡ some (fed s)
unfolding produce_and_consume
produce_and_consume-fed s = rw (
    sub-eq_saturating_sub s.upkeep (shortfall s)
      (le→dominates s.upkeep (shortfall s) (shortfall-le s)))

-- The station after a tick.
pub after_tick : Rules → ℕ → SimStation → SimStation
after_tick rules tick s =
    if is_zero (shortfall s)
    then supplied rules (fed s)
    else starved rules tick (shortfall s) (fed s)

pub settle_tick-after_tick :
    (rules : Rules) (tick : ℕ) (s : SimStation)
    → settle_tick rules tick s ≡ some (after_tick rules tick s)
unfolding settle_tick after_tick
settle_tick-after_tick rules tick s = rw (produce_and_consume-fed s)

fed-Balances : (start : Bundle) (s : SimStation) → Balances start s → Balances start (fed s)
fed-Balances start s h r = omega (
  arith,
  h r,
  get-saturating_sub (stocked s) s.upkeep r,
  get-saturating_sub s.upkeep (stocked s) r,
  get-saturating_sub s.upkeep (shortfall s) r,
  get-add s.inventory (single s.specialty s.production) r,
  get-add s.produced_total (single s.specialty s.production) r,
  get-add s.consumed_total (saturating_sub s.upkeep (shortfall s)) r,
)

-- `after_tick` changes health and counters only, on top of `fed`.
after_tick-Balances :
    (rules : Rules) (tick : ℕ) (start : Bundle) (s : SimStation)
    → Balances start s
    → Balances start (after_tick rules tick s)
unfolding after_tick supplied starved
after_tick-Balances rules tick start s h r = ground (arith, fed-Balances start s h r)

-- Both branches add one to the ticks lived, and leave the bundles alone.
after_tick_counts :
    (rules : Rules) (tick : ℕ) (s : SimStation)
    → let t = after_tick rules tick s in
      (t.shortage_ticks + t.fully_supplied_ticks ≡ s.shortage_ticks + s.fully_supplied_ticks + 1)
      × (t.consumed_total ≡ (fed s).consumed_total)
      × (t.unmet_total ≡ (fed s).unmet_total)
      × (t.upkeep ≡ s.upkeep)
unfolding after_tick supplied starved
after_tick_counts rules tick s = ground arith

fed_demand :
    (s : SimStation) (r : Resource)
    → get (fed s).consumed_total r + get (fed s).unmet_total r
      ≡ get s.consumed_total r + get s.unmet_total r + get s.upkeep r
fed_demand s r = omega (
  arith,
  shortfall-le s r,
  get-saturating_sub s.upkeep (shortfall s) r,
  get-add s.consumed_total (saturating_sub s.upkeep (shortfall s)) r,
  get-add s.unmet_total (shortfall s) r,
)

after_tick-Feeds :
    (rules : Rules) (tick : ℕ) (s : SimStation) → Feeds s → Feeds (after_tick rules tick s)
after_tick-Feeds rules tick s h r =
    let (ticks, consumed, unmet, upkeep) = after_tick_counts rules tick s in
    rw (ticks, consumed, unmet, upkeep) (omega (arith, fed_demand s r, h r))

after_tick-IsHealthy :
    (rules : Rules) (tick : ℕ) (s : SimStation)
    → 0 < rules.max_health
    → IsHealthy rules s
    → IsHealthy rules (after_tick rules tick s)
unfolding after_tick supplied starved
after_tick-IsHealthy rules tick s m h = ground arith

pub after_tick-IsSound :
    (rules : Rules) (tick : ℕ) (start : Bundle) (s : SimStation)
    → 0 < rules.max_health
    → IsSound rules start s
    → IsSound rules start (after_tick rules tick s)
after_tick-IsSound rules tick start s m h = record {
  balances = after_tick-Balances rules tick start s h.balances;
  feeds = after_tick-Feeds rules tick s h.feeds;
  healthy = after_tick-IsHealthy rules tick s m h.healthy;
}

-- A tick never raises. It keeps the stock ledger and the upkeep ledger exact, health within its
-- maximum and above zero for a station that has not failed, and the shortage counters ordered, if
-- the rules allow some health.
pub settle_tick-IsSound :
    (rules : Rules) (tick : ℕ) (start : Bundle) (s : SimStation)
    → 0 < rules.max_health
    → IsSound rules start s
    → (s' : SimStation) × (settle_tick rules tick s ≡ some s') × IsSound rules start s'
settle_tick-IsSound rules tick start s m h = (
  after_tick rules tick s,
  settle_tick-after_tick rules tick s,
  after_tick-IsSound rules tick start s m h,
)

-- A failure is permanent: once a station has failed, no tick clears the mark or moves its date.
pub settle_tick-failed :
    (rules : Rules) (tick : ℕ) (s : SimStation) {s' : SimStation}
    → s.failed_once ≡ true
    → settle_tick rules tick s ≡ some s'
    → (s'.failed_once ≡ true) × (s'.first_failure_tick ≡ s.first_failure_tick)
unfolding after_tick supplied starved
settle_tick-failed rules tick s f e = ground (arith, settle_tick-after_tick rules tick s)

-- A station that has not failed yet fails at a tick exactly when its upkeep was short and the damage
-- used up its health.
pub settle_tick_fails :
    (rules : Rules) (tick : ℕ) (s : SimStation) {s' : SimStation}
    → s.failed_once ≡ false
    → settle_tick rules tick s ≡ some s'
    → (s'.failed_once ≡ true) ↔ (
        (is_zero s'.last_unmet ≡ false)
        × (s.health ≤ total s'.last_unmet * rules.shortage_damage_per_unit))
unfolding after_tick supplied starved
settle_tick_fails rules tick s f e = ground (arith, settle_tick-after_tick rules tick s)

pub after_tick-id :
    (rules : Rules) (tick : ℕ) (s : SimStation)
    → (after_tick rules tick s).station_id ≡ s.station_id
unfolding after_tick supplied starved
after_tick-id rules tick s = ground arith
