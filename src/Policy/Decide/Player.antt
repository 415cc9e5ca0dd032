-- ===== src/Policy/Decide/Player.antt =====
-- `StrategyPlayer` of bazaar_sim/opponents.py with the default strategy: the policy plays a whole
-- run of bazaar_sim/world.py.
use spaceport_bazzar_client.Base.{◌>>=◌, ℕ, ◌≤◌, String, ◌≡◌, refl, Option, none, some, List}
use spaceport_bazzar_client.Domain.Bundle.{Resource}
use spaceport_bazzar_client.Domain.Types.{Rules, Snapshot}
use spaceport_bazzar_client.Execution.Actions.{Action}
use spaceport_bazzar_client.Sim.Station.{SimStation}
use spaceport_bazzar_client.Sim.Economy.{new_economy}
use spaceport_bazzar_client.Sim.Economy.Invariant.{Unique, IsValid}
use spaceport_bazzar_client.Sim.Economy.Invariant.Start.{stock_of}
use spaceport_bazzar_client.Sim.World.{roster_stations, stock_for, WorldState, run_world}
use spaceport_bazzar_client.Sim.World.Whole.{HasStock, run_world-IsValid}
use spaceport_bazzar_client.World.Counterparties.{CounterpartyStats}
use spaceport_bazzar_client.World.Commitments.{CommitmentTracker, new_tracker}
use spaceport_bazzar_client.Policy.Memory.{PolicyMemory, new_memory}
use spaceport_bazzar_client.Policy.Decide.Pipeline.{decide}
use spaceport_bazzar_client.Policy.Decide.Prudence.{decide-IsOrderly}

pub record StrategyPlayer : Type 0 where
  pub memory : PolicyMemory
  pub commitments : CommitmentTracker

-- `OurPolicy()`
abbrev pub our_policy : StrategyPlayer
our_policy = record { memory = new_memory; commitments = new_tracker }

-- `StrategyPlayer.act`; `ReserveTrader.decide` of bazaar_client/strategy.py is `decide`
unfoldable pub policy_act :
    (CounterpartyStats → List Resource)
    → StrategyPlayer
    → Snapshot
    → Option (List Action × StrategyPlayer)
unfolding decide
policy_act keys player snap = do
  (decision, later) ← decide keys snap player.memory player.commitments none
  some (decision.actions, record player { memory = later })

policy_act-Goes :
    (keys : CounterpartyStats → List Resource) (player : StrategyPlayer) (snap : Snapshot)
    → Unique snap.offers
    → (r : List Action × StrategyPlayer) × (policy_act keys player snap ≡ some r)
unfolding policy_act
policy_act-Goes keys player snap distinct =
    let (res, done, orderly) =
      decide-IsOrderly keys snap player.memory player.commitments none distinct in
    ((res.0.actions, record player { memory = res.1 }), rw (policy_act, done, ◌>>=◌) refl)

-- Players of the policy complete a whole run on any schedule of production, if each has a stock and
-- the rules allow a health of 100: no decision, command, tick or snapshot raises, and the economy
-- that is left is valid for the stocks that the planets began with.
pub policy_run-IsValid :
    (names : ℕ → String) (keys : CounterpartyStats → List Resource) (players : List StrategyPlayer)
    (ticks : ℕ) (produce : ℕ → ℕ → ℕ) (stock : List ℕ) (rules : Rules) (run_id : ℕ)
    → HasStock players (stock_for players stock)
    → 100 ≤ rules.max_health
    → (stations : List SimStation) × (last : WorldState StrategyPlayer) × (roster_stations 0 players
          (stock_for players stock)
        ≡ some stations)
      × (run_world names (policy_act keys) players ticks produce stock rules run_id ≡ some last)
      × IsValid (stock_of (new_economy stations rules run_id).stations) last.economy
policy_run-IsValid names keys players ticks produce stock rules run_id stocked m =
    run_world-IsValid names (policy_act keys) players ticks produce stock rules run_id
      (policy_act-Goes keys) stocked m
