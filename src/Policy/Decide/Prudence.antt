-- ===== src/Policy/Decide/Prudence.antt =====
-- What a decision comes to (bazaar_client/policy/decide.py).
use spaceport_bazzar_client.Base.{
  ◌==◌, nat_eq, Bool-cases, ◌>>=◌, length, All, ℕ, ◌-◌, ◌≤◌, ◌≡◌, refl, ◌∙◌, inl, inr, ◌||◌, Option,
  none, some, List, [], arith,
}
use spaceport_bazzar_client.Base.Int.{ℤ}
use spaceport_bazzar_client.Domain.Bundle.{Resource, resource_eq, Bundle, get}
use spaceport_bazzar_client.Domain.Bundle.Laws.{get-saturating_sub}
use spaceport_bazzar_client.Domain.Types.{
  object_eq, Rules, StationObservation, Offer, Snapshot, incoming_open_offers,
}
use spaceport_bazzar_client.Sim.Economy.Invariant.{Unique}
use spaceport_bazzar_client.World.Counterparties.{CounterpartyStats, CounterpartyModel}
use spaceport_bazzar_client.World.Commitments.{CommitmentTracker, available_to_commit}
use spaceport_bazzar_client.Policy.Memory.{PolicyMemory, observe}
use spaceport_bazzar_client.Policy.Reserves.{
  Urgency, compute_reserve, compute_urgency, surplus_above_reserve, deficit_below_reserve,
}
use spaceport_bazzar_client.Policy.Decide.Turn.{Turn}
use spaceport_bazzar_client.Policy.Decide.Incoming.{scarce_import_to_chase}
use spaceport_bazzar_client.Policy.Decide.Outgoing.{propose_offers}
use spaceport_bazzar_client.Policy.Decide.Gifts.{offer_aid}
use spaceport_bazzar_client.Policy.Decide.Pipeline.{
  Decision, is_gated, budget_of, accept_deferred, rearrange, choose, decide,
}
use spaceport_bazzar_client.Policy.Decide.Kept.{IsOffered, Kept, IsOrderly, Kept-IsOrderly}
use spaceport_bazzar_client.Policy.Decide.Listed.{incoming_open_offers-IsOffered}
use spaceport_bazzar_client.Policy.Decide.Accepting.{accept_incoming-Kept}
use spaceport_bazzar_client.Policy.Decide.Offering.{propose_offers-Kept}
use spaceport_bazzar_client.Policy.Decide.Giving.{offer_aid-Kept}
use spaceport_bazzar_client.Policy.Decide.Publishing.{rearrange-Kept, rearrange-counterparties}

surplus_above_reserve-le :
    (available reserve : Bundle) (r : Resource)
    → get (surplus_above_reserve available reserve) r ≤ get available r
unfolding surplus_above_reserve
surplus_above_reserve-le available reserve r = omega (arith, get-saturating_sub available reserve r)

-- The reserve leaves what is known of the other planets as it is.
compute_reserve-counterparties :
    (rules : Rules) (station : StationObservation) (m : PolicyMemory) (available : Bundle)
    → (compute_reserve rules station m available).1.counterparties ≡ m.counterparties
unfolding compute_reserve
compute_reserve-counterparties rules station m available = refl

module _ (model : CounterpartyModel) (snap : Snapshot) (limit : ℕ) (stock : Bundle) where
  accept_deferred-Kept :
      (reserve : Bundle) (ticks_left : Option ℕ) (deferred : List Offer)
      (urgency : Resource → Urgency) (surplus : Bundle) (t : Turn)
      → All (IsOffered snap) deferred
      → Kept model snap limit stock t
      → ((r : Resource) → get surplus r ≤ get t.available r)
      → (res : Turn × (Resource → Urgency) × Bundle) × (accept_deferred snap reserve ticks_left
            deferred urgency surplus t
          ≡ some res)
        × Kept model snap limit stock res.0
        × ((r : Resource) → get res.2 r ≤ get res.0.available r)
  unfolding accept_deferred
  accept_deferred-Kept reserve ticks_left deferred urgency surplus t offered k below =
      let fresh = compute_urgency t.available snap.me.upkeep_per_tick reserve in
      elim (Bool-cases (length deferred == 0 || t.budget == 0)) [
        | inl stop ↦ ((t, urgency, surplus), rw (stop, accept_deferred) refl, k, below)
        | inr go ↦
            let (res, done, last, _) =
              accept_incoming-Kept model snap limit stock reserve ticks_left none deferred fresh t
                offered k in
            (
              (res.0, fresh, surplus_above_reserve res.0.available reserve),
              rw (go, accept_deferred, done, ◌>>=◌) refl,
              last,
              surplus_above_reserve-le res.0.available reserve,
            )
      ]

  choose-IsOrderly :
      (keys : CounterpartyStats → List Resource) (reserve : Bundle) (urgency : Resource → Urgency)
      (memory : PolicyMemory) (t : Turn)
      → Unique snap.offers
      → memory.counterparties ≡ model
      → Kept model snap limit stock t
      → (res : Turn × PolicyMemory) × (choose keys snap reserve urgency memory t ≡ some res)
        × IsOrderly model snap limit stock res.0.actions
  unfolding choose
  choose-IsOrderly keys reserve urgency memory t distinct same k =
      let ticks_left : Option ℕ = some (snap.rules.duration_ticks - snap.tick) in
      let hold_for = scarce_import_to_chase snap t.available urgency ticks_left in
      let (res, done, kept, put_off) =
        accept_incoming-Kept model snap limit stock reserve ticks_left hold_for
          (incoming_open_offers snap) urgency t (incoming_open_offers-IsOffered snap distinct) k in
      let balance = res.0 in
      let pressed = compute_urgency balance.available snap.me.upkeep_per_tick reserve in
      let arranged = rearrange snap reserve ticks_left memory balance in
      let arranged_kept =
        rearrange-Kept model snap limit stock reserve ticks_left memory balance distinct same
          kept in
      let known =
        rearrange-counterparties model snap limit stock reserve ticks_left memory balance ∙ same in
      let surplus = surplus_above_reserve arranged.0.available reserve in
      let deficit = deficit_below_reserve balance.available reserve in
      let proposed =
        propose_offers snap arranged.1 reserve surplus deficit pressed ticks_left arranged.0 in
      let (proposed_kept, below) =
        propose_offers-Kept model snap limit stock arranged.1 reserve surplus deficit pressed
          ticks_left arranged.0 known arranged_kept
          (surplus_above_reserve-le arranged.0.available reserve) in
      let (last, later, last_kept, last_below) =
        accept_deferred-Kept reserve ticks_left res.1 pressed proposed.1 proposed.0 put_off
          proposed_kept below in
      (
        offer_aid keys snap reserve last.2 last.1 ticks_left arranged.1 last.0,
        rw (choose, done, ◌>>=◌, later, ◌>>=◌) refl,
        offer_aid-Kept model snap limit stock keys reserve last.2 last.1 ticks_left arranged.1
            last.0 known last_below last_kept,
      )

-- A decision on an observation whose offers have distinct ids never raises. It has no more actions
-- than commands are allowed, and what the actions give away or promise is in the stock that is not
-- committed. A new offer goes to a planet that the memory, after the observation, knows and has not
-- seen fail; it gives something; and its lifetime passes the server's test, as an advertisement's
-- does. An offer that is accepted is addressed to the station and open. What is withdrawn is an open
-- offer that the station proposed or its own active advertisement. There is no control message.
pub decide-IsOrderly :
    (keys : CounterpartyStats → List Resource) (snap : Snapshot) (memory : PolicyMemory)
    (commitments : CommitmentTracker) (command_budget : Option ℤ)
    → Unique snap.offers
    → (res : Decision × PolicyMemory) × (decide keys snap memory commitments command_budget
        ≡ some res)
      × IsOrderly
          (observe snap memory).counterparties
          snap
          (budget_of snap.rules command_budget)
          (available_to_commit snap commitments)
          res.0.actions
unfolding decide
decide-IsOrderly keys snap memory commitments command_budget distinct =
    let available = available_to_commit snap commitments in
    let limit = budget_of snap.rules command_budget in
    let computed = compute_reserve snap.rules snap.me (observe snap memory) available in
    let urgency = compute_urgency available snap.me.upkeep_per_tick computed.0 in
    let model = (observe snap memory).counterparties in
    let start : Turn = record { actions = []; budget = limit; available = available } in
    let kept : Kept model snap limit available start = record {
      within = omega arith;
      covered = λ r. omega arith;
      sendable = tt;
    } in
    elim (Bool-cases (is_gated snap computed.1)) [
      | inl gated ↦ (
        (
          record {
            actions = [];
            reserve = computed.0;
            available = available;
            surplus = surplus_above_reserve available computed.0;
            deficit = deficit_below_reserve available computed.0;
            urgency = urgency;
          },
          computed.1,
        ),
        rw (gated, decide, ◌>>=◌) refl,
        Kept-IsOrderly model snap limit available start kept,
      )
      | inr free ↦
          let (chosen, done, orderly) =
            choose-IsOrderly model snap limit available keys computed.0 urgency computed.1 start
              distinct
              (compute_reserve-counterparties snap.rules snap.me (observe snap memory) available)
              kept in
          (
            (
              record {
                actions = chosen.0.actions;
                reserve = computed.0;
                available = available;
                surplus = surplus_above_reserve available computed.0;
                deficit = deficit_below_reserve available computed.0;
                urgency = urgency;
              },
              chosen.1,
            ),
            rw (free, decide, done, ◌>>=◌) refl,
            orderly,
          )
    ]
