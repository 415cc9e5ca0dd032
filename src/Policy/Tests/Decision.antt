-- ===== src/Policy/Tests/Decision.antt =====
-- A water planet at tick 30 with an offer from station 2 (bazaar_client/policy/).
use spaceport_bazzar_client.Base.{
  ◌==◌, nat_eq, length, All, ◌+◌, ◌-◌, ◌≤◌, min, ◌≡◌, refl, ◌≢◌, ◌⊎◌, inl, true, false, none, some,
  List, [], ◌∷◌, arith,
}
use spaceport_bazzar_client.Domain.Bundle.{
  Resource, water, food, resource_eq, get, add, dominates, saturating_sub, is_zero, total,
}
use spaceport_bazzar_client.Domain.Types.{
  Phase, OfferStatus, PublicationStatus, ObjectId, object_eq, Offer, Advertisement, Snapshot,
}
use spaceport_bazzar_client.World.Commitments.{
  new_tracker, inflight_total, outstanding_confirmed_give, available_to_commit,
}
use spaceport_bazzar_client.Policy.Memory.{PolicyMemory, observe}
use spaceport_bazzar_client.Policy.Decide.{Decision, decide}
use spaceport_bazzar_client.Base.Float.{ltb_ratio, nearest, float, fl_mul, fl_div, fl_sum}
use spaceport_bazzar_client.Policy.Reserves.{watch, over_ceiling, comfortably_supplied}
use spaceport_bazzar_client.Policy.Accept.{is_unneeded, is_piled_up, import_value, accepts}
use spaceport_bazzar_client.Policy.Pricing.{premium_for}
use spaceport_bazzar_client.Policy.Accept.Safety.{accepts_safely}
use spaceport_bazzar_client.Policy.Targeting.{rank_counterparties}
use spaceport_bazzar_client.Policy.Targeting.Choice.{IsApt, rank_counterparties-IsApt}
use spaceport_bazzar_client.Policy.Decide.Kept.{promised, IsSendable, IsOrderly}
use spaceport_bazzar_client.Policy.Decide.Prudence.{decide-IsOrderly}
use spaceport_bazzar_client.Policy.Decide.Gate.{decide-gated}
use spaceport_bazzar_client.World.Counterparties.{no_counterparties}
use spaceport_bazzar_client.World.Counterparties.History.{update}
use spaceport_bazzar_client.Policy.Decide.Served.{served_decision-IsOrderly}
use spaceport_bazzar_client.Sim.Station.{SimStation, new_station}
use spaceport_bazzar_client.Sim.Economy.{
  station_of, precheck, dispatch, counted, execute, new_economy, observation_for,
}
use spaceport_bazzar_client.Sim.Economy.Invariant.{IsValid}
use spaceport_bazzar_client.Sim.Economy.Invariant.Start.{stock_of}
use spaceport_bazzar_client.Sim.World.{run_two_production, roster_stations, WorldState, run_world}
use spaceport_bazzar_client.Policy.Decide.Player.{
  StrategyPlayer, our_policy, policy_act, policy_run-IsValid,
}
use spaceport_bazzar_client.Sim.Tests.Market.{
  default_rules, stock_of_ten, offered, starts, offered-IsValid,
}
use spaceport_bazzar_client.Policy.Tests.Planet.{rules_of_play, of, planet, memory}

-- Six food for two water.
abbrev pub food_for_water : Offer
food_for_water = record {
  offer_id = ObjectId.offer 5;
  proposer_id = 2;
  recipient_id = 1;
  give = of 0 6 0;
  receive = of 2 0 0;
  created_tick = 29;
  created_version = 60;
  expires_tick = 34;
  status = OfferStatus.open_;
  closed_tick = none;
  transaction_id = none;
}

abbrev pub food_ad : Advertisement
food_ad = record {
  advertisement_id = ObjectId.ad 4;
  station_id = 2;
  selling = λ r. r == food;
  seeking = λ r. r == water;
  created_tick = 28;
  expires_tick = 36;
  created_version = 58;
  status = PublicationStatus.active;
}

abbrev pub seen : Snapshot
seen = record {
  run_id = 7;
  snapshot_sequence = 31;
  world_version = 61;
  tick = 30;
  phase = Phase.running;
  self_station_id = 1;
  rules = rules_of_play;
  directory =
      record { station_id = 1; display_name = "one" }
      ∷ record { station_id = 2; display_name = "two" }
      ∷ [];
  me = planet;
  offers = food_for_water ∷ [];
  advertisements = food_ad ∷ [];
  transactions = [];
  request_results = [];
  outcome = none;
}

-- The same planet after the run.
abbrev pub seen_after : Snapshot
seen_after = record seen { phase = Phase.finished }

-- Five and six tenths over seven is a little less than 0.8 on doubles.
barely_below :
    ltb_ratio
      (fl_div (fl_sum (float 3 ∷ fl_mul (float 2) (nearest 13 10) ∷ [])) (float 7))
      (nearest 4 5)
    ≡ true
unfolding nearest
barely_below = refl

-- Two water are paid for six food.
pays_water :
    accepts (of 2 0 0) (of 0 6 0) planet.inventory (of 15 5 15) (λ r. watch) (some water) none false
    ≡ true
unfolding accepts is_unneeded comfortably_supplied is_zero is_piled_up over_ceiling dominates add
    saturating_sub total import_value nearest premium_for
pays_water = refl

not_running : Phase.finished ≢ Phase.running
not_running = ground arith

accepts_safely_example :
    (2 ≤ 40) × (min (get planet.inventory water) (get (of 15 5 15) water) ≤ 40 - 2 + 0)
accepts_safely_example =
    accepts_safely (of 2 0 0) (of 0 6 0) planet.inventory (of 15 5 15) (λ r. watch) (some water)
      none false water pays_water

rank_counterparties-IsApt_example :
    All (IsApt (update seen no_counterparties) (get (of 0 8 0)) (of 25 0 75) (λ sid r. false)) (
      rank_counterparties
        (update seen no_counterparties)
        (λ r. watch)
        (get (of 0 8 0))
        (of 25 0 75)
        30
        (λ sid r. false)
        (some water))
rank_counterparties-IsApt_example =
    rank_counterparties-IsApt (update seen no_counterparties) (λ r. watch) (get (of 0 8 0))
      (of 25 0 75) 30 (λ sid r. false) (some water)

decide-IsOrderly_example :
    (res : Decision × PolicyMemory) × (decide (λ s. food ∷ []) seen memory new_tracker none
      ≡ some res)
    × IsOrderly
        (observe seen memory).counterparties
        seen
        4
        (available_to_commit seen new_tracker)
        res.0.actions
decide-IsOrderly_example = decide-IsOrderly (λ s. food ∷ []) seen memory new_tracker none (tt, tt)

decide-gated_example :
    (res : Decision × PolicyMemory) × (decide (λ s. food ∷ []) seen_after memory new_tracker none
      ≡ some res)
    × (res.0.actions ≡ [])
decide-gated_example =
    decide-gated (λ s. food ∷ []) seen_after memory new_tracker none (inl not_running)

water_planet_known : station_of 1 offered.stations ≡ some (new_station 1 water stock_of_ten)
unfolding new_economy execute precheck dispatch counted is_zero dominates
water_planet_known = refl

served_decision-IsOrderly_example :
    (snap : Snapshot) × (res : Decision × PolicyMemory) × (observation_for
        (λ sid. "")
        1
        2
        Phase.running
        []
        none
        offered
      ≡ some snap)
    × (decide (λ s. food ∷ []) snap memory new_tracker none ≡ some res)
    × (length res.0.actions ≤ offered.rules.new_commands_per_station_per_tick)
    × All (IsSendable (observe snap memory).counterparties snap) res.0.actions
    × ((r : Resource)
        → (promised snap r res.0.actions ≡ 0)
          ⊎ (promised snap r res.0.actions
                + get (outstanding_confirmed_give snap) r
                + get (inflight_total new_tracker) r
              ≤ get stock_of_ten r))
served_decision-IsOrderly_example =
    served_decision-IsOrderly starts (λ sid. "") 1 2 Phase.running [] none offered
      (new_station 1 water stock_of_ten) (λ s. food ∷ []) memory new_tracker offered-IsValid
      water_planet_known

abbrev two_policies : List StrategyPlayer
two_policies = our_policy ∷ our_policy ∷ []

policy_run-IsValid_example :
    (stations : List SimStation) × (last : WorldState StrategyPlayer) × (roster_stations 0
        two_policies
        (30 ∷ 24 ∷ [])
      ≡ some stations)
    × (run_world
          (λ sid. "planet")
          (policy_act (λ s. food ∷ []))
          two_policies
          120
          (run_two_production 1)
          (30 ∷ 24 ∷ [])
          default_rules
          7
        ≡ some last)
    × IsValid (stock_of (new_economy stations default_rules 7).stations) last.economy
policy_run-IsValid_example =
    policy_run-IsValid (λ sid. "planet") (λ s. food ∷ []) two_policies 120 (run_two_production 1)
      (30 ∷ 24 ∷ []) default_rules 7 tt (omega arith)
