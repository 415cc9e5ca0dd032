-- ===== src/Policy/Decide/Kept.antt =====
-- What the steps of a decision keep (bazaar_client/policy/decide.py).
use spaceport_bazzar_client.Base.{
  ◌==◌, nat_eq, length, sum_by, length-append, All, All-append, ℕ, ◌+◌, ◌≤◌, ◌≡◌, ap, ◌⊎◌, true,
  false, none, some, List, [], ◌∷◌, ◌++◌, arith,
}
use spaceport_bazzar_client.Domain.Bundle.{Resource, resource_eq, Bundle, get, zero_bundle, is_zero}
use spaceport_bazzar_client.Domain.Bundle.Laws.{get-saturating_sub, get-zero_bundle}
use spaceport_bazzar_client.Domain.Types.{
  ObjectId, object_eq, is_active, Offer, is_open_at, what_station_pays, Advertisement, Snapshot,
  own_advertisement,
}
use spaceport_bazzar_client.World.Counterparties.{CounterpartyModel}
use spaceport_bazzar_client.World.Counterparties.InPlay.{IsInPlay}
use spaceport_bazzar_client.Execution.Actions.{Action}
use spaceport_bazzar_client.Sim.Economy.{find_offer, lifetime_ok}
use spaceport_bazzar_client.Policy.Decide.Turn.{Turn, act, spend}

-- What the station pays for the offer `oid` of the observation.
abbrev pub cost_of : Snapshot → ObjectId → Bundle
cost_of snap oid = elim (find_offer oid snap.offers) [
  | none ↦ zero_bundle
  | some o ↦ elim (what_station_pays o snap.self_station_id) [
    | none ↦ zero_bundle
    | some cost ↦ cost
  ]
]

-- The stock that an action gives away or promises.
abbrev pub promised_by : Snapshot → Action → Bundle
promised_by snap (Action.offer a) = a.give
promised_by snap (Action.accept oid) = cost_of snap oid
promised_by snap _ = zero_bundle

abbrev pub promised : Snapshot → Resource → List Action → ℕ
promised snap r = sum_by (λ a. get (promised_by snap a) r)

-- An offer of the observation that is addressed to the station and can be settled.
pub record IsOffered (snap : Snapshot) (o : Offer) : Type 0 where
  pub listed : find_offer o.offer_id snap.offers ≡ some o
  pub addressed : o.recipient_id ≡ snap.self_station_id
  pub standing : is_open_at o snap.tick ≡ true

-- An offer of the observation that the station proposed and that is still open.
pub record IsProposed (snap : Snapshot) (o : Offer) : Type 0 where
  pub listed : find_offer o.offer_id snap.offers ≡ some o
  pub proposed : o.proposer_id ≡ snap.self_station_id
  pub standing : is_open_at o snap.tick ≡ true

-- The standing advertisement of the station.
pub record IsPosted (snap : Snapshot) (posted : Advertisement) : Type 0 where
  pub found : own_advertisement snap ≡ some posted
  pub own : posted.station_id ≡ snap.self_station_id
  pub active : is_active posted.status ≡ true

-- What a decision says of each of its actions: a new offer goes to a planet that the model knows and has
-- not seen fail, and gives something; its lifetime and an advertisement's pass the server's test; an offer that is accepted is addressed to the station and
-- open; what is withdrawn is an open offer that the station proposed or its own active
-- advertisement. A decision holds no control message. How many offers
-- are open together is no part of it.
abbrev pub IsSendable : CounterpartyModel → Snapshot → Action → Type 0
IsSendable model snap (Action.offer a) =
    IsInPlay model a.recipient_id
    × (is_zero a.give ≡ false)
    × (lifetime_ok snap.rules snap.tick snap.rules.max_offer_ttl_ticks a.expires_tick ≡ true)
IsSendable model snap (Action.advertise a) =
    lifetime_ok snap.rules snap.tick snap.rules.max_publication_ttl_ticks a.expires_tick ≡ true
IsSendable model snap (Action.accept oid) = (o : Offer) × (o.offer_id ≡ oid) × IsOffered snap o
IsSendable model snap (Action.withdraw oid) =
    ((o : Offer) × (o.offer_id ≡ oid) × IsProposed snap o)
    ⊎ ((posted : Advertisement) × (posted.advertisement_id ≡ oid) × IsPosted snap posted)
IsSendable model snap Action.sync = ⊥

-- The balance of a decision that began with `limit` commands and the stock `stock`.
pub record Kept (model : CounterpartyModel) (snap : Snapshot) (limit : ℕ) (stock : Bundle)
    (t : Turn) : Type 0 where
  pub within : length t.actions + t.budget ≤ limit
  pub covered : (r : Resource) → promised snap r t.actions + get t.available r ≤ get stock r
  pub sendable : All (IsSendable model snap) t.actions

-- A list of actions that are each in order and that the station can afford.
pub record IsOrderly (model : CounterpartyModel) (snap : Snapshot) (limit : ℕ) (stock : Bundle)
    (actions : List Action) : Type 0 where
  pub within : length actions ≤ limit
  pub covered : (r : Resource) → promised snap r actions ≤ get stock r
  pub sendable : All (IsSendable model snap) actions

pub Kept-IsOrderly :
    (model : CounterpartyModel) (snap : Snapshot) (limit : ℕ) (stock : Bundle) (t : Turn)
    → Kept model snap limit stock t
    → IsOrderly model snap limit stock t.actions
Kept-IsOrderly model snap limit stock t k = record {
  within = omega (arith, k.within);
  covered = λ r. omega (arith, k.covered r);
  sendable = k.sendable;
}

sum_by-append : (f : Action → ℕ) (l k : List Action) → sum_by f (l ++ k) ≡ sum_by f l + sum_by f k
sum_by-append f [] k = omega arith
sum_by-append f (a ∷ l) k = omega (arith, sum_by-append f l k)

module _ (model : CounterpartyModel) (snap : Snapshot) (limit : ℕ) (stock : Bundle) where
  -- An action that is paid for from the stock that is available.
  pub spend-Kept :
      (a : Action) (cost : Bundle) (t : Turn)
      → (t.budget == 0) ≡ false
      → ((r : Resource) → get (promised_by snap a) r ≤ get cost r)
      → ((r : Resource) → get cost r ≤ get t.available r)
      → IsSendable model snap a
      → Kept model snap limit stock t
      → Kept model snap limit stock (spend cost (act a t))
  spend-Kept a cost t left paid held sound k = record {
    within = ground (arith, k.within, length-append {0} t.actions (a ∷ []));
    covered = λ r. omega (
      arith,
      k.covered r,
      paid r,
      held r,
      get-saturating_sub t.available cost r,
      sum_by-append (λ b. get (promised_by snap b) r) t.actions (a ∷ []),
    );
    sendable = All-append (IsSendable model snap) t.actions (a ∷ []) k.sendable (sound, tt);
  }

  -- An action that promises nothing.
  pub act-Kept :
      (a : Action) (t : Turn)
      → (t.budget == 0) ≡ false
      → promised_by snap a ≡ zero_bundle
      → IsSendable model snap a
      → Kept model snap limit stock t
      → Kept model snap limit stock (act a t)
  act-Kept a t left free sound k = record {
    within = ground (arith, k.within, length-append {0} t.actions (a ∷ []));
    covered = λ r. omega (
      arith,
      k.covered r,
      get-zero_bundle r,
      ap (λ (b : Bundle). get b r) free,
      sum_by-append (λ b. get (promised_by snap b) r) t.actions (a ∷ []),
    );
    sendable = All-append (IsSendable model snap) t.actions (a ∷ []) k.sendable (sound, tt);
  }
