-- ===== src/Policy/Decide/Incoming.antt =====
-- The first step of a decision: offers to accept (bazaar_client/policy/decide.py).
use spaceport_bazzar_client.Base.{
  ltb, leb, if◌then◌else◌, ◌==◌, nat_eq, ◌>>=◌, length, any, ℕ, ◌+◌, Bool, true, false, not, ◌&&◌,
  ◌||◌, Option, none, some, List, [], ◌∷◌, ◌++◌,
}
use spaceport_bazzar_client.Domain.Bundle.{
  Resource, resource_eq, Bundle, get, saturating_sub, is_zero,
}
use spaceport_bazzar_client.Domain.Types.{
  object_eq, Offer, what_station_pays, what_station_receives, Snapshot, outgoing_open_offers,
}
use spaceport_bazzar_client.Execution.Actions.{Action}
use spaceport_bazzar_client.Policy.Reserves.{
  Urgency, level, compute_urgency, in_end_game, production_payment_limit, over_ceiling,
  scarcest_import,
}
use spaceport_bazzar_client.Policy.Accept.{some_resource, evaluate_incoming}
use spaceport_bazzar_client.Policy.Decide.Turn.{Turn, act, spend, has_normal_offers}

-- `limit == 0`
abbrev pub is_stop : Option ℕ → Bool
is_stop none = false
is_stop (some halves) = halves == 0

-- `limit is not None`
abbrev pub is_limited : Option ℕ → Bool
is_limited none = false
is_limited (some _) = true

-- `_scarce_import_to_chase`
unfoldable pub scarce_import_to_chase :
    Snapshot → Bundle → (Resource → Urgency) → Option ℕ → Option Resource
scarce_import_to_chase snap available urgency ticks_left =
    let specialty = snap.me.specialty in
    let outgoing = outgoing_open_offers snap in
    elim (scarcest_import available (some specialty)) [
      | none ↦ none
      | some scarce ↦
          let lagging =
            not (level (urgency scarce) == 0)
            || some_resource (λ r.
              not (r == scarce)
              && not (r == specialty)
              && over_ceiling r available (some specialty)) in
          if not lagging
            || is_stop (production_payment_limit available snap.me ticks_left)
            || leb snap.rules.max_open_outgoing_offers (length outgoing)
            || any (λ o. ltb 0 (get o.receive scarce)) outgoing
          then none
          else some scarce
    ]

-- `hold_for is not None and gain.get(hold_for) == 0`
abbrev pub brings_none : Option Resource → Bundle → Bool
brings_none none gain = false
brings_none (some r) gain = get gain r == 0

-- What one round of `_accept_incoming` leaves: the balance, the urgency, and whether the offer was
-- put off.
pub record Round : Type 0 where
  pub turn : Turn
  pub urgency : Resource → Urgency
  pub deferred : List Offer

abbrev pub passed : Turn → (Resource → Urgency) → Round
passed t urgency = record { turn = t; urgency = urgency; deferred = [] }

-- `accept`, with what the acceptance costs
abbrev pub taken : Snapshot → Bundle → Offer → Bundle → Turn → Round
taken snap reserve o cost t =
    let after = spend cost (act (Action.accept o.offer_id) t) in
    record {
      turn = after;
      urgency = compute_urgency after.available snap.me.upkeep_per_tick reserve;
      deferred = [];
    }

-- `offer.expires_tick - observation.tick <= 1`
abbrev pub is_last_chance : Snapshot → Offer → Bool
is_last_chance snap o = leb o.expires_tick (snap.tick + 1)

-- The body of the loop of `_accept_incoming`.
unfoldable pub accept_one :
    Snapshot
    → Bundle
    → Option ℕ
    → Option Resource
    → (Resource → Urgency)
    → Turn
    → Offer
    → Option Round
accept_one snap reserve ticks_left hold_for urgency t o = do
  cost ← what_station_pays o snap.self_station_id
  gain ← what_station_receives o snap.self_station_id
  let limit = production_payment_limit (saturating_sub t.available cost) snap.me ticks_left
  verdict ←
      evaluate_incoming o snap.self_station_id t.available reserve urgency (some snap.me.specialty)
        limit (in_end_game ticks_left)
  some (
      if not (is_zero cost) && has_normal_offers snap && is_limited limit || not verdict
      then passed t urgency
      else if leb t.budget 1 && (is_last_chance snap o || brings_none hold_for gain)
      then record { turn = t; urgency = urgency; deferred = o ∷ [] }
      else taken snap reserve o cost t)

-- `_accept_incoming`, from the offers that are left: the balance and the offers put off. It stops
-- once the budget is spent.
unfoldable pub accept_incoming :
    Snapshot
    → Bundle
    → Option ℕ
    → Option Resource
    → List Offer
    → (Resource → Urgency)
    → Turn
    → Option (Turn × List Offer)
unfolding accept_one
accept_incoming snap reserve ticks_left hold_for [] urgency t = some (t, [])
accept_incoming snap reserve ticks_left hold_for (o ∷ offers) urgency t = elim (t.budget == 0) [
  | true ↦ some (t, [])
  | false ↦ accept_one snap reserve ticks_left hold_for urgency t o >>= λ round.
      accept_incoming snap reserve ticks_left hold_for offers round.urgency round.turn >>= λ rest.
      some (rest.0, round.deferred ++ rest.1)
]
