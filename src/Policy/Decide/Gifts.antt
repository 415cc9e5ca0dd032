-- ===== src/Policy/Decide/Gifts.antt =====
-- Gifts of what is over the cap, and to planets in trouble (bazaar_client/policy/decide.py).
use spaceport_bazzar_client.Base.{
  leb, if◌then◌else◌, ◌==◌, nat_eq, length, sort_by, ℕ, ◌+◌, ◌-◌, min, ◌||◌, Option, none, some,
  List, [], ◌∷◌,
}
use spaceport_bazzar_client.Domain.Bundle.{
  Resource, resource_eq, resources, Bundle, get, zero_bundle, single, add, saturating_sub,
}
use spaceport_bazzar_client.Domain.Types.{object_eq, Snapshot, outgoing_open_offers}
use spaceport_bazzar_client.Execution.Actions.{Action}
use spaceport_bazzar_client.World.Counterparties.{CounterpartyStats}
use spaceport_bazzar_client.Policy.Memory.{PolicyMemory, record_gift}
use spaceport_bazzar_client.Policy.Reserves.{Urgency, production_payment_limit}
use spaceport_bazzar_client.Policy.Altruism.{pick_gift_recipient, scan_for_distress}
use spaceport_bazzar_client.Policy.Decide.Turn.{Turn, act, spend, ttl_of, planned_offers}
use spaceport_bazzar_client.Policy.Decide.Incoming.{is_limited}

-- `MAX_EXCESS_GIFT` of bazaar_client/policy/altruism.py
abbrev pub max_excess_gift : ℕ
max_excess_gift = 20

-- `OfferAction(recipient, gift, Bundle.zero(), tick + ttl)`
abbrev pub gift_to : Snapshot → ℕ → Bundle → Action
gift_to snap sid gift = Action.offer (record {
  recipient_id = sid;
  give = gift;
  receive = zero_bundle;
  expires_tick = snap.tick + ttl_of snap;
})

-- The running state of the loop of `_give_excess`.
pub record Giving : Type 0 where
  pub turn : Turn
  pub memory : PolicyMemory
  pub room : ℕ

-- The gift of `r` to the planet that is picked.
abbrev pub give : Snapshot → Resource → ℕ → ℕ → Giving → Giving
give snap r quantity sid g =
    let gift = single r quantity in
    record {
      turn = spend gift (act (gift_to snap sid gift) g.turn);
      memory = record_gift sid r snap.tick g.memory;
      room = g.room - 1;
    }

-- The body of the loop of `_give_excess`. A break leaves the state as it is, and so does each round
-- after it: the resources come by falling excess.
unfoldable pub give_one : Snapshot → Bundle → Resource → Giving → Giving
give_one snap excess r g =
    if g.turn.budget == 0 || g.room == 0 || ttl_of snap == 0 || get excess r == 0
    then g
    else elim (pick_gift_recipient g.memory.counterparties r snap.tick g.memory) [
      | none ↦ g
      | some sid ↦ give snap r (min (get excess r) max_excess_gift) sid g
    ]

unfoldable pub give_each : Snapshot → Bundle → List Resource → Giving → Giving
unfolding give_one
give_each snap excess [] g = g
give_each snap excess (r ∷ rs) g = give_each snap excess rs (give_one snap excess r g)

-- `sorted(Resource, key=lambda r: -excess.get(r))`
abbrev pub by_excess : Bundle → List Resource
by_excess excess = sort_by (λ a b. leb (get excess b) (get excess a)) resources

-- `_give_excess`: the balance, and the memory that it writes
unfoldable pub give_excess : Snapshot → Bundle → PolicyMemory → Turn → Turn × PolicyMemory
unfolding give_each
give_excess snap excess memory t =
    let start : Giving = record {
      turn = t;
      memory = memory;
      room =
          snap.rules.max_open_outgoing_offers
          - length (outgoing_open_offers snap)
          - planned_offers t.actions;
    } in
    let last = give_each snap excess (by_excess excess) start in (last.turn, last.memory)

-- `_offer_aid`: the actions, and the memory that it writes
unfoldable pub offer_aid :
    (CounterpartyStats → List Resource)
    → Snapshot
    → Bundle
    → Bundle
    → (Resource → Urgency)
    → Option ℕ
    → PolicyMemory
    → Turn
    → Turn × PolicyMemory
offer_aid keys snap reserve surplus urgency ticks_left memory t =
    let stock = add surplus reserve in
    if is_limited (production_payment_limit stock snap.me ticks_left)
      || t.budget == 0
      || leb snap.rules.max_open_outgoing_offers
          (length (outgoing_open_offers snap) + planned_offers t.actions)
    then (t, memory)
    else elim (scan_for_distress keys memory.counterparties surplus urgency snap.tick memory) [
      | none ↦ (t, memory)
      | some g ↦
          let gift = single g.resource g.quantity in
          if is_limited (production_payment_limit (saturating_sub stock gift) snap.me ticks_left)
            || ttl_of snap == 0
          then (t, memory)
          else (
            act (gift_to snap g.station_id gift) t,
            record_gift g.station_id g.resource snap.tick memory,
          )
    ]
