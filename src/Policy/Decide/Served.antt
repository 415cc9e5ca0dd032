-- ===== src/Policy/Decide/Served.antt =====
-- A decision on what the server's economy shows (bazaar_client/policy/decide.py and
-- bazaar_sim/economy.py).
use text.Mathlib.Text.{◌==◌ as str_eq}
use spaceport_bazzar_client.Base.{
  if◌then◌else◌, ◌==◌, nat_eq, ◌>>=◌, length, keep_if, All, ℕ, ◌+◌, ◌≤◌, String, ◌≡◌, refl, ap, ◌⊎◌,
  ◌||◌, Option, none, some, List, map, arith,
}
use spaceport_bazzar_client.Domain.Bundle.{Resource, resource_eq, Bundle, get}
use spaceport_bazzar_client.Domain.Types.{Phase, object_eq, CommandResult, PlayerOutcome, Snapshot}
use spaceport_bazzar_client.Sim.Station.{SimStation, observation}
use spaceport_bazzar_client.Sim.Economy.{Economy, station_of, observation_for}
use spaceport_bazzar_client.Sim.Economy.Invariant.Offers.{Unique-keep_if}
use spaceport_bazzar_client.Sim.Economy.Invariant.{IsValid}
use spaceport_bazzar_client.World.Counterparties.{CounterpartyStats}
use spaceport_bazzar_client.World.Commitments.{
  CommitmentTracker, inflight_total, outstanding_confirmed_give,
}
use spaceport_bazzar_client.World.Commitments.Cover.{get-available}
use spaceport_bazzar_client.Policy.Memory.{PolicyMemory, observe}
use spaceport_bazzar_client.Policy.Decide.Pipeline.{Decision, decide}
use spaceport_bazzar_client.Policy.Decide.Kept.{promised, IsSendable}
use spaceport_bazzar_client.Policy.Decide.Prudence.{decide-IsOrderly}

-- The snapshot of `observation_for` for a station that is found.
abbrev shown :
    (ℕ → String)
    → ℕ
    → ℕ
    → Phase
    → List CommandResult
    → Option PlayerOutcome
    → Economy
    → SimStation
    → Snapshot
shown names sid sequence phase results outcome e station = record {
  run_id = e.run_id;
  snapshot_sequence = sequence;
  world_version = e.world_version;
  tick = e.tick;
  phase = phase;
  self_station_id = sid;
  rules = e.rules;
  directory =
      map
        (λ s. record {
          station_id = s.station_id;
          display_name = if str_eq s.display_name "" then names s.station_id else s.display_name;
        })
        e.stations;
  me = observation station;
  offers = keep_if (λ o. sid == o.proposer_id || sid == o.recipient_id) e.offers;
  advertisements = e.advertisements;
  transactions = keep_if (λ t. sid == t.proposer_id || sid == t.recipient_id) e.transactions;
  request_results = results;
  outcome = outcome;
}

observation_for-shown :
    (names : ℕ → String) (sid sequence : ℕ) (phase : Phase) (results : List CommandResult)
    (outcome : Option PlayerOutcome) (e : Economy) (station : SimStation)
    → station_of sid e.stations ≡ some station
    → observation_for names sid sequence phase results outcome e
      ≡ some (shown names sid sequence phase results outcome e station)
unfolding observation_for
observation_for-shown names sid sequence phase results outcome e station found =
    rw (observation_for, found, ◌>>=◌) refl

shown-inventory :
    (names : ℕ → String) (sid sequence : ℕ) (phase : Phase) (results : List CommandResult)
    (outcome : Option PlayerOutcome) (e : Economy) (station : SimStation)
    → (shown names sid sequence phase results outcome e station).me.inventory ≡ station.inventory
unfolding observation
shown-inventory names sid sequence phase results outcome e station = refl

-- What the station of a valid economy decides, from the observation that the economy gives it and
-- without a command budget. Neither step raises. The actions are at most the commands of a tick. A
-- new offer goes to a planet that the memory, after the observation, knows and has not seen fail; it
-- gives something; and its lifetime passes the server's test, as an advertisement's does. An offer
-- that is accepted is addressed to the station and open. What is withdrawn is an open offer that the
-- station proposed or its own active advertisement. There is no control message. A resource that
-- the actions promise is in the station's stock together with the promises of its open offers and
-- of its commands under way.
pub served_decision-IsOrderly :
    (starts : ℕ → Bundle) (names : ℕ → String) (sid sequence : ℕ) (phase : Phase)
    (results : List CommandResult) (outcome : Option PlayerOutcome) (e : Economy)
    (station : SimStation) (keys : CounterpartyStats → List Resource) (memory : PolicyMemory)
    (commitments : CommitmentTracker)
    → IsValid starts e
    → station_of sid e.stations ≡ some station
    → (snap : Snapshot) × (res : Decision × PolicyMemory) × (observation_for names sid sequence
          phase results outcome e
        ≡ some snap)
      × (decide keys snap memory commitments none ≡ some res)
      × (length res.0.actions ≤ e.rules.new_commands_per_station_per_tick)
      × All (IsSendable (observe snap memory).counterparties snap) res.0.actions
      × ((r : Resource)
          → (promised snap r res.0.actions ≡ 0)
            ⊎ (promised snap r res.0.actions
                  + get (outstanding_confirmed_give snap) r
                  + get (inflight_total commitments) r
                ≤ get station.inventory r))
served_decision-IsOrderly starts names sid sequence phase results outcome e station keys memory
      commitments valid found =
    let snap = shown names sid sequence phase results outcome e station in
    let (res, done, orderly) =
      decide-IsOrderly keys snap memory commitments none (
        Unique-keep_if (λ o. sid == o.proposer_id || sid == o.recipient_id) e.offers
          valid.unique) in
    (
      snap,
      res,
      observation_for-shown names sid sequence phase results outcome e station found,
      done,
      orderly.within,
      orderly.sendable,
      λ r. omega (
        arith,
        orderly.covered r,
        get-available snap commitments r,
        ap (λ (b : Bundle). get b r)
            (shown-inventory names sid sequence phase results outcome e station),
      ),
    )
