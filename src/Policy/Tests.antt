-- ===== src/Policy/Tests.antt =====
-- The policy of bazaar_client/policy/ on one station.
pub mod Planet
pub mod Decision
use spaceport_bazzar_client.Base.{
  if◌then◌else◌, ◌==◌, nat_eq, ℕ, ◌+◌, ◌*◌, ◌≤◌, min, ◌≡◌, refl, ◌≢◌, true, false, none, some, [],
  ◌∷◌, arith,
}
use spaceport_bazzar_client.Domain.Bundle.{
  Resource, water, food, components, resource_eq, get, all_resources, single, dominates, is_zero,
  total,
}
use spaceport_bazzar_client.Domain.Types.{PublicationStatus, ObjectId, object_eq, Advertisement}
use spaceport_bazzar_client.Execution.Actions.{AdvertiseAction, Action}
use spaceport_bazzar_client.Sim.Economy.{lifetime_ok}
use spaceport_bazzar_client.Policy.Advertising.{sells, seeks, ad_ttl, decide_advertisement}
use spaceport_bazzar_client.Policy.Advertising.Lifetime.{decide_advertisement_lifetime}
use spaceport_bazzar_client.World.Counterparties.{new_stats, CounterpartyModel}
use spaceport_bazzar_client.Policy.Altruism.{GiftIntent, scan_for_distress}
use spaceport_bazzar_client.Policy.Altruism.Caution.{IsCareful, scan_for_distress-IsCareful}
use spaceport_bazzar_client.Policy.Memory.{new_memory, ticks_since_gift}
use spaceport_bazzar_client.Policy.Pricing.{premium_of_stock, premium_for, compute_terms}
use spaceport_bazzar_client.Policy.Pricing.Terms.{cap_of, compute_terms_bounds}
use spaceport_bazzar_client.Policy.Reserves.{
  calm, watch, level, safety_ticks, compute_reserve, production_payment_limit, over_ceiling,
}
use spaceport_bazzar_client.Policy.Reserves.Bounds.{
  compute_reserve_bounds, limit_rank, production_payment_limit_mono,
}
use spaceport_bazzar_client.Policy.Reserves.Balance.{over_ceiling_one}
use spaceport_bazzar_client.Policy.Tests.Planet.{
  rules_of_play, of, planet, memory, components_piled,
}

compute_reserve_bounds_example :
    let (reserve, m') = compute_reserve rules_of_play planet memory planet.inventory in
    (get reserve components ≤ 15)
    × (min 15 (
          get planet.upkeep_per_tick components
          * safety_ticks components rules_of_play planet memory)
        ≤ get reserve components)
    × (get m'.stored_reserve components ≤ get planet.inventory components)
compute_reserve_bounds_example =
    compute_reserve_bounds rules_of_play planet memory planet.inventory components

over_ceiling_one_example : over_ceiling food planet.inventory (some water) ≡ false
over_ceiling_one_example =
    over_ceiling_one components food planet.inventory water (λ e. cc) components_piled

production_payment_limit_mono_example :
    limit_rank (production_payment_limit (of 10 0 0) planet none)
    ≤ limit_rank (production_payment_limit (of 30 0 0) planet none)
production_payment_limit_mono_example =
    production_payment_limit_mono (of 10 0 0) (of 30 0 0) planet none (omega arith)

-- An advertisement of surplus water that seeks nothing yet.
abbrev notice : Advertisement
notice = record {
  advertisement_id = ObjectId.ad 5;
  station_id = 1;
  selling = λ r. r == water;
  seeking = λ r. false;
  created_tick = 10;
  expires_tick = 18;
  created_version = 3;
  status = PublicationStatus.active;
}

abbrev proposal : AdvertiseAction
proposal = record {
  selling = sells (of 5 0 0);
  seeking = seeks (of 0 2 0) (λ r. r == food);
  expires_tick = 11 + ad_ttl 11 rules_of_play;
}

proposing :
    decide_advertisement (of 5 0 0) (of 0 2 0) (λ r. r == food) (some notice) 11 rules_of_play
    ≡ some (Action.advertise proposal)
unfolding decide_advertisement
proposing = refl

decide_advertisement_lifetime_example :
    (lifetime_ok rules_of_play 11 rules_of_play.max_publication_ttl_ticks proposal.expires_tick
      ≡ true)
    × (proposal.expires_tick ≤ 11 + 8)
decide_advertisement_lifetime_example =
    decide_advertisement_lifetime (of 5 0 0) (of 0 2 0) (λ r. r == food) (some notice) 11
      rules_of_play proposal proposing

abbrev three : ℕ
three = 3

-- Three food at a stock of eight cost 2.25 each: seven water.
priced :
    compute_terms food 3 water (of 40 8 90) watch none (some 8) false ≡ some (of 7 0 0, of 0 3 0)
unfolding compute_terms premium_for premium_of_stock single
priced = refl

compute_terms_bounds_example :
    (of 7 0 0 ≡ single water (total (of 7 0 0)))
    × (of 0 3 0 ≡ single food (total (of 0 3 0)))
    × (dominates (of 40 8 90) (of 7 0 0) ≡ true)
    × (is_zero (of 7 0 0) ≡ false)
    × (is_zero (of 0 3 0) ≡ false)
    × (food ≢ water)
    × (2 * total (of 7 0 0) ≤ total (of 0 3 0) * cap_of none)
compute_terms_bounds_example =
    compute_terms_bounds food 3 water (of 40 8 90) watch none (some 8) false (of 7 0 0) (of 0 3 0)
      priced

-- Station 2 has sought food for five ticks.
abbrev hungry : CounterpartyModel
hungry = record {
  known =
      record (new_stats 2) {
        seeking = λ r. r == food;
        seeking_streak = λ r. if r == food then 5 else 0;
        last_ad_tick = some 30;
      }
      ∷ [];
  counted_offers = [];
}

abbrev gift : GiftIntent
gift = record { station_id = 2; resource = food; quantity = 4 }

giving : scan_for_distress (λ s. food ∷ []) hungry (of 0 20 0) (λ r. calm) 30 new_memory ≡ some gift
unfolding scan_for_distress ticks_since_gift
giving = refl

scan_for_distress-IsCareful_example :
    (all_resources (λ (r : Resource). level calm == 0) ≡ true)
    × IsCareful hungry (of 0 20 0) 30 new_memory gift
scan_for_distress-IsCareful_example =
    scan_for_distress-IsCareful (λ s. food ∷ []) hungry (of 0 20 0) (λ r. calm) 30 new_memory gift
      giving
