-- ===== src/World/Tests.antt =====
-- One view of the world and the promises made under it (bazaar_client/world/).
use spaceport_bazzar_client.Base.{
  ◌==◌, nat_eq, sum_by, All, ℕ, ◌+◌, ◌-◌, ◌≡◌, refl, false, Option, none, some, List, [], ◌∷◌, map,
  arith,
}
use spaceport_bazzar_client.Domain.Bundle.{
  water, food, components, resource_eq, Bundle, get, zero_bundle, add, dominates, saturating_sub,
  total,
}
use spaceport_bazzar_client.Domain.Types.{
  Phase, OfferStatus, PublicationStatus, ObjectId, object_eq, Rules, StationObservation, Offer,
  Snapshot, outgoing_open_offers,
}
use spaceport_bazzar_client.World.Commitments.{
  new_tracker, register_inflight, resolve_inflight, inflight_total, outstanding_confirmed_give,
  available_to_commit, can_afford,
}
use spaceport_bazzar_client.World.Commitments.Cover.{
  IsCovered, available_to_commit_exact, Use, use_each, use_each-IsCovered,
}
use spaceport_bazzar_client.World.Counterparties.{CounterpartyStats, no_counterparties}
use spaceport_bazzar_client.World.Counterparties.History.{update}
use spaceport_bazzar_client.World.Counterparties.Plausible.{IsPlausible}
use spaceport_bazzar_client.World.Counterparties.Observed.{observe_each, observe_each-IsPlausible}
use spaceport_bazzar_client.World.Model.{new_model, forget}
use spaceport_bazzar_client.World.Model.Newest.{
  apply_each_snapshot, Newest, apply_each_snapshot-Newest,
}

abbrev rules_of_run : Rules
rules_of_run = record {
  rules_version = "v1";
  duration_ticks = 120;
  tick_duration_ms = 5000;
  resource_order = water ∷ food ∷ components ∷ [];
  max_health = 100;
  shortage_damage_per_unit = 5;
  recovery_per_fully_supplied_tick = 5;
  max_publication_ttl_ticks = 10;
  max_offer_ttl_ticks = 10;
  new_commands_per_station_per_tick = 4;
  max_request_records_per_station = 1000;
  max_open_outgoing_offers = 6;
  max_command_bytes = 16384;
}

abbrev own_planet : StationObservation
own_planet = record {
  station_id = 1;
  inventory = record { water = 9; food = 6; components = 6 };
  health = 100;
  failed_once = false;
  first_failure_tick = none;
  last_production = zero_bundle;
  last_unmet_upkeep = zero_bundle;
  fully_supplied_ticks = 0;
  shortage_ticks = 0;
  current_shortage_streak = 0;
  longest_shortage_streak = 0;
  produced_total = zero_bundle;
  consumed_total = zero_bundle;
  unmet_total = zero_bundle;
  imported_total = zero_bundle;
  exported_total = zero_bundle;
  upkeep_per_tick = zero_bundle;
  specialty = water;
}

-- Four water of the nine are promised to station 2.
abbrev open_offer : Offer
open_offer = record {
  offer_id = ObjectId.offer 1;
  proposer_id = 1;
  recipient_id = 2;
  give = record { water = 4; food = 0; components = 0 };
  receive = record { water = 0; food = 3; components = 0 };
  created_tick = 0;
  created_version = 1;
  expires_tick = 5;
  status = OfferStatus.open_;
  closed_tick = none;
  transaction_id = none;
}

abbrev seen : ℕ → Snapshot
seen sequence = record {
  run_id = 7;
  snapshot_sequence = sequence;
  world_version = 1;
  tick = 0;
  phase = Phase.running;
  self_station_id = 1;
  rules = rules_of_run;
  directory = [];
  me = own_planet;
  offers = open_offer ∷ [];
  advertisements = [];
  transactions = [];
  request_results = [];
  outcome = none;
}

abbrev three_water : Bundle
three_water = record { water = 3; food = 0; components = 0 }

-- The second offer of three water is not sent: only two are left.
abbrev uses : List Use
uses = Use.send 1 three_water ∷ Use.send 2 three_water ∷ Use.resolve 3 ∷ []

one_sent : use_each (seen 1) uses new_tracker ≡ (1, three_water) ∷ []
unfolding use_each can_afford register_inflight resolve_inflight dominates saturating_sub add
one_sent = refl

nothing_sent-IsCovered : IsCovered (seen 1) new_tracker
unfolding outstanding_confirmed_give inflight_total add
nothing_sent-IsCovered r = ground arith

use_each-IsCovered_example : IsCovered (seen 1) (use_each (seen 1) uses new_tracker)
use_each-IsCovered_example = use_each-IsCovered (seen 1) uses new_tracker nothing_sent-IsCovered

-- Three of the water are in flight, and the stock is nine.
available_to_commit_exact_example :
    get (available_to_commit (seen 1) ((1, three_water) ∷ [])) water
    ≡ 9
      - (sum_by (λ (o : Offer). get o.give water) (outgoing_open_offers (seen 1))
          + sum_by (λ (item : ℕ × Bundle). get item.1 water) ((1, three_water) ∷ []))
available_to_commit_exact_example = available_to_commit_exact (seen 1) ((1, three_water) ∷ []) water

apply_each_snapshot-Newest_example :
    Newest
      (seen 1 ∷ seen 3 ∷ seen 2 ∷ [])
      (forget new_model)
      (apply_each_snapshot (seen 1 ∷ seen 3 ∷ seen 2 ∷ []) (forget new_model))
apply_each_snapshot-Newest_example =
    apply_each_snapshot-Newest (seen 1) (seen 3 ∷ seen 2 ∷ []) new_model

-- Station 2 took one offer and let another lapse, and it seeks food.
abbrev told : ℕ → Snapshot
told now = record (seen 2) {
  tick = now;
  directory = record { station_id = 2; display_name = "two" } ∷ [];
  offers =
      record open_offer { status = OfferStatus.accepted; closed_tick = some 3 }
      ∷ record open_offer {
        offer_id = ObjectId.offer 2;
        status = OfferStatus.expired;
        closed_tick = some 5;
      }
      ∷ [];
  advertisements =
      record {
        advertisement_id = ObjectId.ad 9;
        station_id = 2;
        selling = λ r. false;
        seeking = λ r. r == food;
        created_tick = 2;
        expires_tick = 9;
        created_version = 1;
        status = PublicationStatus.active;
      }
      ∷ [];
}

abbrev sizes : List CounterpartyStats → List (Option ℕ)
sizes = map (λ s. s.size_limit)

-- Three food were asked for, so that one unit is the size to try next.
sized : sizes (observe_each (told 6 ∷ told 7 ∷ []) no_counterparties).known ≡ some 1 ∷ []
unfolding observe_each update total
sized = refl

observe_each-IsPlausible_example :
    All IsPlausible (observe_each (told 6 ∷ told 7 ∷ []) no_counterparties).known
observe_each-IsPlausible_example =
    observe_each-IsPlausible (told 6 ∷ told 7 ∷ []) no_counterparties tt
