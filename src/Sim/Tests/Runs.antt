-- ===== src/Sim/Tests/Runs.antt =====
-- Whole-world runs of two players (bazaar_sim/world.py).
use spaceport_bazzar_client.Base.{
  length, ℕ, ◌+◌, ◌*◌, ◌≡◌, refl, false, Option, none, some, List, [], ◌∷◌, arith,
}
use spaceport_bazzar_client.Domain.Bundle.{Resource}
use spaceport_bazzar_client.Domain.Types.{PlayerOutcome, Snapshot}
use spaceport_bazzar_client.Execution.Actions.{Action}
use spaceport_bazzar_client.Sim.Station.{SimStation}
use spaceport_bazzar_client.Sim.Economy.{new_economy, outcome_for}
use spaceport_bazzar_client.Sim.Economy.Invariant.{IsKnown, IsValid}
use spaceport_bazzar_client.Sim.Economy.Invariant.Start.{stock_of}
use spaceport_bazzar_client.Sim.World.{
  run_two_production, producers, shares, base_for, balanced_production, roster_stations, WorldState,
  run_world,
}
use spaceport_bazzar_client.Sim.World.Whole.{run_world-IsValid}
use spaceport_bazzar_client.Sim.World.Score.{
  Score, score_economy, AllDated, alive, score_economy-told,
}
use spaceport_bazzar_client.Sim.World.Cycle.{output_of, no_surplus, balanced_production_cycle}
use spaceport_bazzar_client.Sim.Tests.Market.{default_rules, market, post}

-- A player that counts its turns and always asks for the same deal.
abbrev ask : ℕ → Snapshot → Option (List Action × ℕ)
ask turns snap = some (post ∷ [], turns + 1)

abbrev two_players : List ℕ
two_players = 0 ∷ 0 ∷ []

run_world-IsValid_example :
    (stations : List SimStation) × (last : WorldState ℕ) × (roster_stations 0 two_players
        (30 ∷ 24 ∷ [])
      ≡ some stations)
    × (run_world
          (λ sid. "planet")
          ask
          two_players
          120
          (run_two_production 1)
          (30 ∷ 24 ∷ [])
          default_rules
          7
        ≡ some last)
    × IsValid (stock_of (new_economy stations default_rules 7).stations) last.economy
run_world-IsValid_example =
    run_world-IsValid (λ sid. "planet") ask two_players 120 (run_two_production 1) (30 ∷ 24 ∷ [])
      default_rules 7 (λ turns snap distinct. ((post ∷ [], turns + 1), refl)) tt (omega arith)

market-AllDated : AllDated market.stations
unfolding new_economy
market-AllDated = (refl, (refl, tt))

planet_one : IsKnown 1 market.stations
unfolding new_economy
planet_one = ground arith

score_economy-told_example :
    (score : Score) × (out : PlayerOutcome) × (score_economy market 120 none none ≡ some score)
    × (outcome_for 1 false market ≡ some out)
    × (out.collective_success ≡ some score.collective_success)
    × (score.survivors ≡ length (alive market.stations))
score_economy-told_example = score_economy-told market 120 1 false market-AllDated planet_one

balanced_production_cycle_example :
    (produce : ℕ → ℕ → Option ℕ) × (a b c : ℕ) × (balanced_production 4 1 2 no_surplus
      ≡ some produce)
    × (output_of produce 7 (producers 4 Resource.water) ≡ some a)
    × (output_of produce (7 + 12) (producers 4 Resource.water) ≡ some b)
    × (output_of produce (7 + 24) (producers 4 Resource.water) ≡ some c)
    × (a + b + c ≡ 3 * (4 * 1))
balanced_production_cycle_example =
    balanced_production_cycle 4 1 2 7 Resource.water (omega arith) (omega arith)

-- Four planets: the two that make water share the need of four.
water_shares : base_for 4 1 Resource.water ≡ (0, 2) ∷ (3, 2) ∷ []
unfolding base_for shares
water_shares = refl
