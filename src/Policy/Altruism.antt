-- ===== src/Policy/Altruism.antt =====
-- bazaar_client/policy/altruism.py: gifts to planets in trouble. A dictionary's order of keys is not
-- part of a station's record, so the function `keys` gives the resources of a streak in that order.
pub mod Caution
pub mod Receiver
use spaceport_bazzar_client.Base.{
  ltb, leb, if◌then◌else◌, ◌==◌, nat_eq, keep_if, ℕ, ◌/◌, max, Bool, true, false, not, ◌&&◌, ◌||◌,
  Option, none, some, List, [], ◌∷◌, ◌++◌,
}
use spaceport_bazzar_client.Base.Int.{pos, leb_ℤ}
use spaceport_bazzar_client.Domain.Bundle.{Resource, resource_eq, Bundle, get, all_resources}
use spaceport_bazzar_client.Domain.Types.{object_eq}
use spaceport_bazzar_client.World.Counterparties.{
  CounterpartyStats, CounterpartyModel, stations_in_play, stats_of,
}
use spaceport_bazzar_client.Policy.Memory.{PolicyMemory, ticks_since_gift}
use spaceport_bazzar_client.Policy.Reserves.{Urgency, level}

abbrev pub persistence_ticks : ℕ
persistence_ticks = 4

abbrev pub cooldown_ticks : ℕ
cooldown_ticks = 5

abbrev pub excess_cooldown_ticks : ℕ
excess_cooldown_ticks = 2

pub record GiftIntent : Type 0 where
  pub station_id : ℕ
  pub resource : Resource
  pub quantity : ℕ

-- A fifth, rounded down, and at least one.
abbrev pub donation_size : ℕ → ℕ
donation_size surplus_qty = max 1 (surplus_qty / 5)

-- `memory.ticks_since_gift(...) >= ticks`
abbrev pub is_rested : ℕ → ℕ → Resource → ℕ → PolicyMemory → Bool
is_rested ticks sid r tick m = leb_ℤ (pos ticks) (ticks_since_gift sid r tick m)

-- `-1 <= a < b` on ticks of which `none` is -1
abbrev pub is_before : Option ℕ → Option ℕ → Bool
is_before _ none = false
is_before none (some b) = true
is_before (some a) (some b) = ltb a b

-- `(streak, last_ad_tick)` of the first is less than that of the second
abbrev pub is_quieter : Resource → CounterpartyStats → CounterpartyStats → Bool
is_quieter r s t =
    ltb (s.seeking_streak r) (t.seeking_streak r)
    || (s.seeking_streak r == t.seeking_streak r && is_before s.last_ad_tick t.last_ad_tick)

-- `max` by that key: the first of the greatest
pub loudest : Resource → CounterpartyStats → List CounterpartyStats → CounterpartyStats
loudest r best [] = best
loudest r best (s ∷ l) = loudest r (if is_quieter r best s then s else best) l

pub pick_gift_recipient : CounterpartyModel → Resource → ℕ → PolicyMemory → Option ℕ
unfolding loudest
pick_gift_recipient model r tick memory =
    let seekers =
      keep_if (λ s. s.seeking r && is_rested excess_cooldown_ticks s.station_id r tick memory)
        (stations_in_play model) in
    elim seekers [ [] ↦ none | s ∷ l ↦ some (loudest r s l).station_id ]

-- The tests of `scan_for_distress` on one resource of a station.
abbrev pub is_in_distress : Bundle → ℕ → PolicyMemory → CounterpartyStats → Resource → Bool
is_in_distress surplus tick memory s r =
    leb persistence_ticks (s.seeking_streak r)
    && ltb 0 (get surplus r)
    && is_rested cooldown_ticks s.station_id r tick memory

-- The inner loop of `scan_for_distress`.
pub intents_for : Bundle → ℕ → PolicyMemory → CounterpartyStats → List Resource → List GiftIntent
intents_for surplus tick memory s [] = []
intents_for surplus tick memory s (r ∷ rs) =
    let rest = intents_for surplus tick memory s rs in
    if is_in_distress surplus tick memory s r
    then record {
      station_id = s.station_id;
      resource = r;
      quantity = donation_size (get surplus r);
    }
      ∷ rest
    else rest

-- The outer loop.
pub intents_of :
    (CounterpartyStats → List Resource)
    → Bundle
    → ℕ
    → PolicyMemory
    → List CounterpartyStats
    → List GiftIntent
unfolding intents_for
intents_of keys surplus tick memory [] = []
intents_of keys surplus tick memory (s ∷ l) =
    intents_for surplus tick memory s (keys s) ++ intents_of keys surplus tick memory l

-- `model.get(g.station_id).seeking_streak.get(g.resource, 0)`
abbrev pub streak_of : CounterpartyModel → GiftIntent → ℕ
streak_of model g = elim (stats_of g.station_id model) [
  | none ↦ 0
  | some s ↦ s.seeking_streak g.resource
]

-- The first element of a stable sort by falling streak.
pub longest_need : CounterpartyModel → GiftIntent → List GiftIntent → GiftIntent
longest_need model best [] = best
longest_need model best (g ∷ l) =
    longest_need model (if ltb (streak_of model best) (streak_of model g) then g else best) l

-- `scan_for_distress`: the slice of one intent is an option
unfoldable pub scan_for_distress :
    (CounterpartyStats → List Resource)
    → CounterpartyModel
    → Bundle
    → (Resource → Urgency)
    → ℕ
    → PolicyMemory
    → Option GiftIntent
unfolding intents_of longest_need
scan_for_distress keys model surplus urgency tick memory =
    if not (all_resources (λ r. level (urgency r) == 0))
    then none
    else elim (intents_of keys surplus tick memory (stations_in_play model)) [
      | [] ↦ none
      | g ∷ l ↦ some (longest_need model g l)
    ]
