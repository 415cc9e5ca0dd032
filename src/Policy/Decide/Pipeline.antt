-- ===== src/Policy/Decide/Pipeline.antt =====
-- `decide` of bazaar_client/policy/decide.py: the steps in the order of what they protect.
use spaceport_bazzar_client.Base.{
  ltb, leb, if◌then◌else◌, ◌==◌, nat_eq, ◌>>=◌, length, ℕ, ◌-◌, min, Bool, true, false, not, ◌||◌,
  Option, none, some, List, [],
}
use spaceport_bazzar_client.Base.Int.{ℤ, pos_part}
use spaceport_bazzar_client.Domain.Bundle.{
  Resource, resource_eq, Bundle, get, bundle_of, zero_bundle,
}
use spaceport_bazzar_client.Domain.Types.{
  Phase, object_eq, Rules, Offer, Snapshot, incoming_open_offers, outgoing_open_offers,
  own_advertisement,
}
use spaceport_bazzar_client.Execution.Actions.{Action}
use spaceport_bazzar_client.World.Counterparties.{CounterpartyStats}
use spaceport_bazzar_client.World.Commitments.{CommitmentTracker, available_to_commit}
use spaceport_bazzar_client.Policy.Memory.{PolicyMemory, observe}
use spaceport_bazzar_client.Policy.Reserves.{
  Urgency, level, compute_reserve, compute_urgency, surplus_above_reserve, deficit_below_reserve,
  production_payment_limit, excess_over_cap, comfortably_supplied,
}
use spaceport_bazzar_client.Policy.Advertising.{decide_advertisement}
use spaceport_bazzar_client.Policy.Decide.Turn.{Turn, act}
use spaceport_bazzar_client.Policy.Decide.Incoming.{
  is_stop, scarce_import_to_chase, accept_incoming,
}
use spaceport_bazzar_client.Policy.Decide.Outgoing.{
  withdraw_dangerous, wanted_quantities, propose_offers,
}
use spaceport_bazzar_client.Policy.Decide.Gifts.{give_excess, offer_aid}

pub record Decision : Type 0 where
  pub actions : List Action
  pub reserve : Bundle
  pub available : Bundle
  pub surplus : Bundle
  pub deficit : Bundle
  pub urgency : Resource → Urgency

-- `phase is RUNNING`
abbrev pub is_running : Phase → Bool
is_running Phase.running = true
is_running _ = false

-- The four tests of `decide` that let no action through.
unfoldable pub is_gated : Snapshot → PolicyMemory → Bool
is_gated snap memory =
    not (is_running snap.phase)
    || snap.me.failed_once
    || ltb snap.tick memory.blocked_until_tick
    || leb snap.rules.duration_ticks snap.tick

-- `budget`
abbrev pub budget_of : Rules → Option ℤ → ℕ
budget_of rules none = rules.new_commands_per_station_per_tick
budget_of rules (some command_budget) =
    min rules.new_commands_per_station_per_tick (pos_part command_budget)

-- `r in critical`
abbrev pub is_critical : (Resource → Urgency) → Resource → Bool
is_critical urgency r = level (urgency r) == 2

-- `advertised_need`
abbrev pub advertised_need : (Resource → ℕ) → Bundle → Bundle
advertised_need wanted excess = bundle_of (λ r. if get excess r == 0 then wanted r else 0)

-- `advertised_surplus`
abbrev pub advertised_surplus : (Resource → ℕ) → Bundle → Bundle → Option ℕ → Bundle
advertised_surplus wanted excess surplus limit =
    if is_stop limit
    then zero_bundle
    else bundle_of (λ r. if wanted r == 0 || ltb 0 (get excess r) then get surplus r else 0)

-- `_refresh_advertisement`
unfoldable pub refresh_advertisement : Snapshot → Bundle → Bundle → (Resource → Bool) → Turn → Turn
refresh_advertisement snap surplus deficit pressing t =
    if t.budget == 0
    then t
    else elim (decide_advertisement surplus deficit pressing (own_advertisement snap) snap.tick
        snap.rules) [ none ↦ t | some action ↦ act action t ]

-- The step of `decide` on the advertisement.
unfoldable pub advertise_step : Snapshot → Bundle → Bundle → (Resource → Bool) → Turn → Turn
unfolding refresh_advertisement
advertise_step snap surplus need pressing t =
    if comfortably_supplied t.available
    then elim (own_advertisement snap) [
      | none ↦ t
      | some ad ↦ if t.budget == 0 then t else act (Action.withdraw ad.advertisement_id) t
    ]
    else refresh_advertisement snap surplus need pressing t

-- The second pass over the offers that were put off, if a command is left.
unfoldable pub accept_deferred :
    Snapshot
    → Bundle
    → Option ℕ
    → List Offer
    → (Resource → Urgency)
    → Bundle
    → Turn
    → Option (Turn × (Resource → Urgency) × Bundle)
accept_deferred snap reserve ticks_left deferred urgency surplus t =
    if length deferred == 0 || t.budget == 0 then some (t, urgency, surplus) else do
      let fresh = compute_urgency t.available snap.me.upkeep_per_tick reserve
      (after, _) ← accept_incoming snap reserve ticks_left none deferred fresh t
      some (after, fresh, surplus_above_reserve after.available reserve)

-- The steps between the first acceptances and the offers.
unfoldable pub rearrange : Snapshot → Bundle → Option ℕ → PolicyMemory → Turn → Turn × PolicyMemory
unfolding withdraw_dangerous give_excess advertise_step
rearrange snap reserve ticks_left memory t =
    let deficit = deficit_below_reserve t.available reserve in
    let urgency = compute_urgency t.available snap.me.upkeep_per_tick reserve in
    let withdrawn = withdraw_dangerous snap reserve ticks_left (outgoing_open_offers snap) t in
    let excess = excess_over_cap withdrawn.available in
    let (given, memory') = give_excess snap excess memory withdrawn in
    let wanted = wanted_quantities snap given.available reserve deficit in
    let limit = production_payment_limit given.available snap.me ticks_left in
    let surplus = surplus_above_reserve given.available reserve in
    (
      advertise_step snap (advertised_surplus wanted excess surplus limit)
          (advertised_need wanted excess) (is_critical urgency) given,
      memory',
    )

-- The actions of `decide` once nothing gates them, from the reserve, the urgency and the balance.
unfoldable pub choose :
    (CounterpartyStats → List Resource)
    → Snapshot
    → Bundle
    → (Resource → Urgency)
    → PolicyMemory
    → Turn
    → Option (Turn × PolicyMemory)
unfolding scarce_import_to_chase accept_incoming rearrange propose_offers accept_deferred offer_aid
choose keys snap reserve urgency memory t = do
  let ticks_left : Option ℕ = some (snap.rules.duration_ticks - snap.tick)
  let hold_for = scarce_import_to_chase snap t.available urgency ticks_left
  (settled, deferred) ←
      accept_incoming snap reserve ticks_left hold_for (incoming_open_offers snap) urgency t
  let deficit = deficit_below_reserve settled.available reserve
  let pressed = compute_urgency settled.available snap.me.upkeep_per_tick reserve
  let arranged = rearrange snap reserve ticks_left memory settled
  let surplus = surplus_above_reserve arranged.0.available reserve
  let proposed =
      propose_offers snap arranged.1 reserve surplus deficit pressed ticks_left arranged.0
  (last, final_urgency, left) ←
      accept_deferred snap reserve ticks_left deferred pressed proposed.1 proposed.0
  some (offer_aid keys snap reserve left final_urgency ticks_left arranged.1 last)

-- `decide`: the decision and the memory
unfoldable pub decide :
    (CounterpartyStats → List Resource)
    → Snapshot
    → PolicyMemory
    → CommitmentTracker
    → Option ℤ
    → Option (Decision × PolicyMemory)
unfolding is_gated choose
decide keys snap memory commitments command_budget = do
  let available = available_to_commit snap commitments
  let computed = compute_reserve snap.rules snap.me (observe snap memory) available
  let urgency = compute_urgency available snap.me.upkeep_per_tick computed.0
  let start : Turn = record {
    actions = [];
    budget = budget_of snap.rules command_budget;
    available = available;
  }
  chosen ←
      if is_gated snap computed.1
      then some (start, computed.1)
      else choose keys snap computed.0 urgency computed.1 start
  some (
    record {
      actions = chosen.0.actions;
      reserve = computed.0;
      available = available;
      surplus = surplus_above_reserve available computed.0;
      deficit = deficit_below_reserve available computed.0;
      urgency = urgency;
    },
    chosen.1,
  )
