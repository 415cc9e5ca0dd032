-- ===== src/Sim/Economy/Total.antt =====
-- On a valid economy no command raises (`execute` of bazaar_sim/economy.py).
use spaceport_bazzar_client.Base.{
  ◌==◌, nat_eq, Bool-cases, Option-cases, ◌>>=◌, All, All-find?, ℕ, ◌≡◌, refl, ◌∙◌, ◌≢◌, inl, inr,
  true, not, ◌||◌, Option, some, List, arith,
}
use spaceport_bazzar_client.Domain.Bundle.{resource_eq, Bundle, dominates}
use spaceport_bazzar_client.Domain.Types.{ObjectId, object_eq, is_open, Offer, is_expired_at}
use spaceport_bazzar_client.Execution.Actions.{Action}
use spaceport_bazzar_client.Sim.Station.{SimStation}
use spaceport_bazzar_client.Sim.Economy.{
  CommandOutcome, Economy, station_of, try_station, find_offer, precheck, exchange, count_trade,
  settlement, settle_offer, accept_between, accept_offer, accept_command, dispatch, counted,
  execute,
}
use spaceport_bazzar_client.Sim.Economy.Stations.{
  station_of-try_station, try_station-total, try_station_known,
}
use spaceport_bazzar_client.Sim.Economy.Trade.{
  exchange-eq_some, exchange-KeepsId, count_trade-KeepsId,
}
use spaceport_bazzar_client.Sim.Economy.Invariant.Counting.{counted-IsFormed}
use spaceport_bazzar_client.Sim.Economy.Invariant.{IsKnown, IsFormed, IsValid}

-- The value that a partial step is known to have.
abbrev pub Goes {ℓ} : {A : Type ℓ} → Option A → Type ℓ
Goes {A = A} o = (a : A) × (o ≡ some a)

pub known-Goes : (x : ℕ) (l : List SimStation) → IsKnown x l → Goes (station_of x l)
known-Goes x l k = elim (Option-cases (station_of x l)) [
  | inl missing ↦ absurd (k missing)
  | inr (s, found) ↦ (s, found)
]

count_trade-Goes :
    (sid : ℕ) (a b : Bundle) (l : List SimStation)
    → IsKnown sid l
    → Goes (try_station sid (count_trade a b) l)
unfolding count_trade
count_trade-Goes sid a b l k =
    let (s, found) = known-Goes sid l k in try_station-total sid (count_trade a b) l found refl

pub settlement-Goes :
    (o : Offer) (l : List SimStation) (p r : SimStation)
    → o.recipient_id ≢ o.proposer_id
    → station_of o.proposer_id l ≡ some p
    → station_of o.recipient_id l ≡ some r
    → dominates p.inventory o.give ≡ true
    → dominates r.inventory o.receive ≡ true
    → Goes (settlement o l)
settlement-Goes o l p r ne kp kr cp cr =
    let (l₁, e₁) =
      try_station-total o.proposer_id (exchange o.give o.receive) l kp
        (exchange-eq_some o.give o.receive p cp) in
    let kr₁ : station_of o.recipient_id l₁ ≡ some r =
      station_of-try_station o.proposer_id (exchange o.give o.receive) o.recipient_id l
        (exchange-KeepsId o.give o.receive) e₁
      ∙ ground arith in
    let (l₂, e₂) =
      try_station-total o.recipient_id (exchange o.receive o.give) l₁ kr₁
        (exchange-eq_some o.receive o.give r cr) in
    let still = λ (x : ℕ) (k : IsKnown x l).
      try_station_known o.recipient_id (exchange o.receive o.give) x l₁
        (exchange-KeepsId o.receive o.give) e₂
        (try_station_known o.proposer_id (exchange o.give o.receive) x l
          (exchange-KeepsId o.give o.receive) e₁ k) in
    let (l₃, e₃) =
      count_trade-Goes o.proposer_id o.give o.receive l₂
        (still o.proposer_id (λ gone. cc (kp, gone))) in
    let (l₄, e₄) = count_trade-Goes o.recipient_id o.receive o.give l₃ (
      try_station_known o.proposer_id (count_trade o.give o.receive) o.recipient_id l₂
        (count_trade-KeepsId o.give o.receive) e₃ (still o.recipient_id (λ gone. cc (kr, gone)))) in
    (l₄, rw (e₁, e₂, e₃) e₄)

settle_offer-Goes :
    (o : Offer) (e : Economy) → Goes (settlement o e.stations) → Goes (settle_offer o e)
unfolding settle_offer
settle_offer-Goes o e (l, writes) = rw writes (_, refl)

accept_between-Goes : (o : Offer) (e : Economy) → IsFormed e o → Goes (accept_between o e)
unfolding accept_between
accept_between-Goes o e h =
    let (p, kp) = known-Goes o.proposer_id e.stations h.proposer_known in
    let (r, kr) = known-Goes o.recipient_id e.stations h.recipient_known in
    elim (Bool-cases (p.failed_once || r.failed_once)) [
      | inl dead ↦ rw (kp, kr, dead) (_, refl)
      | inr alive ↦
          elim (Bool-cases
            (not (dominates p.inventory o.give) || not (dominates r.inventory o.receive))) [
              | inl short ↦ rw (kp, kr, alive, short) (_, refl)
              | inr covered ↦
                  rw (kp, kr, alive, covered)
                    (settle_offer-Goes o e (
                      settlement-Goes o e.stations p r h.distinct kp kr (ground arith)
                        (ground arith)))
            ]
    ]

accept_command-Goes :
    (sid : ℕ) (oid : ObjectId) (e : Economy)
    → All (IsFormed e) e.offers
    → Goes (accept_command sid oid e)
unfolding accept_command accept_offer
accept_command-Goes sid oid e h = elim (Option-cases (find_offer oid e.offers)) [
  | inl missing ↦ rw (missing, accept_command) (_, refl)
  | inr (o, found) ↦
      let formed = All-find? (λ x. x.offer_id == oid) (IsFormed e) e.offers o h found in
      elim (Bool-cases (o.recipient_id == sid)) [
        | inr other ↦ rw (found, accept_command, other) (_, refl)
        | inl mine ↦ elim (Bool-cases (is_open o.status)) [
          | inr closed ↦ rw (found, accept_command, mine, closed) (_, refl)
          | inl standing ↦ elim (Bool-cases (is_expired_at o e.tick)) [
            | inl late ↦ rw (found, accept_command, mine, standing, late) (_, refl)
            | inr live ↦
                rw (found, accept_command, mine, standing, live) (accept_between-Goes o e formed)
          ]
        ]
      ]
]

dispatch-Goes :
    (sid : ℕ) (action : Action) (e : Economy)
    → All (IsFormed e) e.offers
    → Goes (dispatch sid action e)
unfolding dispatch
dispatch-Goes sid (Action.accept oid) e h = accept_command-Goes sid oid e h
dispatch-Goes sid _ e h = (_, refl)

-- On a valid economy a command of a known station always returns an answer: it never raises.
pub execute-Goes :
    (starts : ℕ → Bundle) (sid : ℕ) (action : Action) (e : Economy)
    → IsValid starts e
    → IsKnown sid e.stations
    → (answer : CommandOutcome × Economy) × (execute sid action e ≡ some answer)
unfolding execute
execute-Goes starts sid action e v k =
    let (s, known) = known-Goes sid e.stations k in
    elim (Option-cases (precheck sid s action e)) [
      | inr (code, no_go) ↦ rw (known, ◌>>=◌, no_go) (_, refl)
      | inl passed ↦
          rw (known, ◌>>=◌, passed)
            (dispatch-Goes sid action (counted sid e) (counted-IsFormed sid e v.formed))
    ]
