-- ===== src/Policy/Decide/Accepting.antt =====
-- The acceptances of a decision are paid for (bazaar_client/policy/decide.py).
use spaceport_bazzar_client.Base.{
  leb, if◌then◌else◌, ◌==◌, nat_eq, Bool-cases, ◌>>=◌, All, All-append, ℕ, ◌≡◌, refl, ap, inl, inr,
  Bool, true, false, not, ◌&&◌, ◌||◌, Option, some, List, [], ◌∷◌, ◌++◌, arith,
}
use spaceport_bazzar_client.Domain.Bundle.{
  Resource, resource_eq, Bundle, get, saturating_sub, is_zero,
}
use spaceport_bazzar_client.Domain.Types.{
  object_eq, Offer, what_station_pays, what_station_receives, Snapshot,
}
use spaceport_bazzar_client.World.Counterparties.{CounterpartyModel}
use spaceport_bazzar_client.Execution.Actions.{Action}
use spaceport_bazzar_client.Sim.Economy.{find_offer}
use spaceport_bazzar_client.Policy.Reserves.{Urgency, in_end_game, production_payment_limit}
use spaceport_bazzar_client.Policy.Accept.{accepts, evaluate_incoming}
use spaceport_bazzar_client.Policy.Accept.Safety.{accepts_safely}
use spaceport_bazzar_client.Policy.Decide.Turn.{Turn, has_normal_offers}
use spaceport_bazzar_client.Policy.Decide.Incoming.{
  is_limited, brings_none, Round, passed, taken, is_last_chance, accept_one, accept_incoming,
}
use spaceport_bazzar_client.Policy.Decide.Kept.{cost_of, IsOffered, Kept, spend-Kept}

recipient_pays :
    (o : Offer) (sid : ℕ) → o.recipient_id ≡ sid → (b : Bundle) × (what_station_pays o sid ≡ some b)
unfolding what_station_pays
recipient_pays o sid h = elim (Bool-cases (sid == o.proposer_id)) [
  | inl own ↦ (o.give, ground arith)
  | inr other ↦ (o.receive, ground arith)
]

recipient_receives :
    (o : Offer) (sid : ℕ)
    → o.recipient_id ≡ sid
    → (b : Bundle) × (what_station_receives o sid ≡ some b)
unfolding what_station_receives
recipient_receives o sid h = elim (Bool-cases (sid == o.proposer_id)) [
  | inl own ↦ (o.receive, ground arith)
  | inr other ↦ (o.give, ground arith)
]

-- What a station pays for an offer that is listed is the cost of its id.
cost_of-listed :
    (snap : Snapshot) (o : Offer) (cost : Bundle)
    → find_offer o.offer_id snap.offers ≡ some o
    → what_station_pays o snap.self_station_id ≡ some cost
    → cost_of snap o.offer_id ≡ cost
cost_of-listed snap o cost found pays = ground arith

-- A round of the loop, once it is known what the offer costs and brings.
abbrev round_for :
    Snapshot
    → Bundle
    → Option ℕ
    → Option Resource
    → (Resource → Urgency)
    → Turn
    → Offer
    → Bundle
    → Bundle
    → Round
round_for snap reserve ticks_left hold_for urgency t o cost gain =
    let limit = production_payment_limit (saturating_sub t.available cost) snap.me ticks_left in
    let verdict =
      accepts cost gain t.available reserve urgency (some snap.me.specialty) limit
        (in_end_game ticks_left) in
    if not (is_zero cost) && has_normal_offers snap && is_limited limit || not verdict
    then passed t urgency
    else if leb t.budget 1 && (is_last_chance snap o || brings_none hold_for gain)
    then record { turn = t; urgency = urgency; deferred = o ∷ [] }
    else taken snap reserve o cost t

accept_one-round_for :
    (snap : Snapshot) (reserve : Bundle) (ticks_left : Option ℕ) (hold_for : Option Resource)
    (urgency : Resource → Urgency) (t : Turn) (o : Offer) (cost gain : Bundle)
    → what_station_pays o snap.self_station_id ≡ some cost
    → what_station_receives o snap.self_station_id ≡ some gain
    → accept_one snap reserve ticks_left hold_for urgency t o
      ≡ some (round_for snap reserve ticks_left hold_for urgency t o cost gain)
unfolding accept_one evaluate_incoming
accept_one-round_for snap reserve ticks_left hold_for urgency t o cost gain pays receives =
    rw (pays, receives, ◌>>=◌) refl

-- The balance after a round, and the offers it puts off.
abbrev RoundKept : CounterpartyModel → Snapshot → ℕ → Bundle → Round → Type 0
RoundKept model snap limit stock round =
    Kept model snap limit stock round.turn × All (IsOffered snap) round.deferred

module _ (model : CounterpartyModel) (snap : Snapshot) (limit : ℕ) (stock : Bundle) where
  if-RoundKept :
      (skip hold verdict : Bool) (t : Turn) (urgency : Resource → Urgency) (o : Offer)
      (last : Round)
      → IsOffered snap o
      → Kept model snap limit stock t
      → (verdict ≡ true → RoundKept model snap limit stock last)
      → RoundKept model snap limit stock (
          if skip || not verdict
          then passed t urgency
          else if hold
          then record { turn = t; urgency = urgency; deferred = o ∷ [] }
          else last)
  if-RoundKept true hold verdict t urgency o last offered k f = (k, tt)
  if-RoundKept false hold false t urgency o last offered k f = (k, tt)
  if-RoundKept false true true t urgency o last offered k f = (k, (offered, tt))
  if-RoundKept false false true t urgency o last offered k f = f refl

  accept_one-Kept :
      (reserve : Bundle) (ticks_left : Option ℕ) (hold_for : Option Resource)
      (urgency : Resource → Urgency) (t : Turn) (o : Offer)
      → (t.budget == 0) ≡ false
      → IsOffered snap o
      → Kept model snap limit stock t
      → (round : Round) × (accept_one snap reserve ticks_left hold_for urgency t o ≡ some round)
        × RoundKept model snap limit stock round
  accept_one-Kept reserve ticks_left hold_for urgency t o left offered k =
      let (cost, pays) = recipient_pays o snap.self_station_id offered.addressed in
      let (gain, receives) = recipient_receives o snap.self_station_id offered.addressed in
      let limit' = production_payment_limit (saturating_sub t.available cost) snap.me ticks_left in
      (
        round_for snap reserve ticks_left hold_for urgency t o cost gain,
        accept_one-round_for snap reserve ticks_left hold_for urgency t o cost gain pays receives,
        if-RoundKept (not (is_zero cost) && has_normal_offers snap && is_limited limit')
            (leb t.budget 1 && (is_last_chance snap o || brings_none hold_for gain))
            (accepts cost gain t.available reserve urgency (some snap.me.specialty) limit'
              (in_end_game ticks_left))
            t urgency o (taken snap reserve o cost t) offered k
            (λ good. (
              spend-Kept model snap limit stock (Action.accept o.offer_id) cost t left
                  (λ r. omega (
                    arith,
                    ap (λ (b : Bundle). get b r) (cost_of-listed snap o cost offered.listed pays),
                  ))
                  (λ r.
                    (accepts_safely cost gain t.available reserve urgency (some snap.me.specialty)
                      limit' (in_end_game ticks_left) r good).0)
                  (o, refl, offered) k,
              tt,
            )),
      )

  -- The acceptances never raise and keep the balance, and what they put off was offered.
  pub accept_incoming-Kept :
      (reserve : Bundle) (ticks_left : Option ℕ) (hold_for : Option Resource) (offers : List Offer)
      (urgency : Resource → Urgency) (t : Turn)
      → All (IsOffered snap) offers
      → Kept model snap limit stock t
      → (res : Turn × List Offer) × (accept_incoming snap reserve ticks_left hold_for offers urgency
            t
          ≡ some res)
        × Kept model snap limit stock res.0
        × All (IsOffered snap) res.1
  unfolding accept_incoming
  accept_incoming-Kept reserve ticks_left hold_for [] urgency t h k = ((t, []), refl, k, tt)
  accept_incoming-Kept reserve ticks_left hold_for (o ∷ offers) urgency t h k =
      elim (Bool-cases (t.budget == 0)) [
        | inl spent ↦ ((t, []), rw (spent, accept_incoming) refl, k, tt)
        | inr left ↦
            let (round, done, (kept, put_off)) =
              accept_one-Kept reserve ticks_left hold_for urgency t o left h.0 k in
            let (rest, later, last, others) =
              accept_incoming-Kept reserve ticks_left hold_for offers round.urgency round.turn h.1
                kept in
            (
              (rest.0, round.deferred ++ rest.1),
              rw (left, accept_incoming, done, ◌>>=◌, later, ◌>>=◌) refl,
              last,
              All-append (IsOffered snap) round.deferred rest.1 put_off others,
            )
      ]
