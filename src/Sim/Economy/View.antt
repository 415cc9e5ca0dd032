-- ===== src/Sim/Economy/View.antt =====
-- `__init__`, `observation_for` and `outcome_for` of `SimulatedEconomy` (bazaar_sim/economy.py).
use text.Mathlib.Text.{◌==◌ as str_eq}
use spaceport_bazzar_client.Base.{
  if◌then◌else◌, ◌==◌, nat_eq, ◌>>=◌, keep_if, any, ℕ, ◌+◌, String, Bool, not, ◌||◌, Option, some,
  List, [], ◌∷◌, map,
}
use spaceport_bazzar_client.Domain.Bundle.{resource_eq}
use spaceport_bazzar_client.Domain.Types.{
  Phase, object_eq, Rules, CommandResult, PlayerOutcome, Snapshot,
}
use spaceport_bazzar_client.Sim.Station.{SimStation, observation}
use spaceport_bazzar_client.Sim.Economy.State.{Economy, station_of}

-- `__init__`: a later station with the same id replaces an earlier one in its place
unfoldable pub put_station : SimStation → List SimStation → List SimStation
put_station s [] = s ∷ []
put_station s (t ∷ rest) =
    let kept = put_station s rest in if t.station_id == s.station_id then s ∷ rest else t ∷ kept

unfoldable pub put_stations : List SimStation → List SimStation → List SimStation
unfolding put_station
put_stations [] known = known
put_stations (s ∷ stations) known = put_stations stations (put_station s known)

unfoldable pub new_economy : List SimStation → Rules → ℕ → Economy
unfolding put_stations
new_economy stations rules run_id = record {
  stations = put_stations stations [];
  rules = rules;
  run_id = run_id;
  tick = 0;
  world_version = 1;
  sequence = 0;
  offers = [];
  transactions = [];
  advertisements = [];
  next_id = 1;
  command_counts = [];
  rejections = [];
}

-- `observation_for` with a sequence number given; `none` is a `KeyError`. The display name is
-- `s.display_name or s.station_id`, and `names` gives a station id's text.
unfoldable pub observation_for :
    (ℕ → String)
    → ℕ
    → ℕ
    → Phase
    → List CommandResult
    → Option PlayerOutcome
    → Economy
    → Option Snapshot
unfolding observation
observation_for names sid sequence phase results outcome e = do
  station ← station_of sid e.stations
  some (record {
    run_id = e.run_id;
    snapshot_sequence = sequence;
    world_version = e.world_version;
    tick = e.tick;
    phase = phase;
    self_station_id = sid;
    rules = e.rules;
    directory =
        map
          (λ s. record {
            station_id = s.station_id;
            display_name = if str_eq s.display_name "" then names s.station_id else s.display_name;
          })
          e.stations;
    me = observation station;
    offers = keep_if (λ o. sid == o.proposer_id || sid == o.recipient_id) e.offers;
    advertisements = e.advertisements;
    transactions = keep_if (λ t. sid == t.proposer_id || sid == t.recipient_id) e.transactions;
    request_results = results;
    outcome = outcome;
  })

-- `observation_for` without a sequence number: the economy counts it
unfoldable pub observe_next :
    (ℕ → String)
    → ℕ
    → Phase
    → List CommandResult
    → Option PlayerOutcome
    → Economy
    → Option (Snapshot × Economy)
unfolding observation_for
observe_next names sid phase results outcome e = do
  let sequence = e.sequence + 1
  snap ← observation_for names sid sequence phase results outcome e
  some (snap, record e { sequence = sequence })

-- `outcome_for`
unfoldable pub outcome_for : ℕ → Bool → Economy → Option PlayerOutcome
outcome_for sid aborted e = do
  station ← station_of sid e.stations
  some (record {
    collective_success = some (not (any (λ s. s.failed_once) e.stations));
    self_failed = station.failed_once;
    aborted = aborted;
  })
