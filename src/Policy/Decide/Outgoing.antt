-- ===== src/Policy/Decide/Outgoing.antt =====
-- Offers to withdraw and offers to make (bazaar_client/policy/decide.py).
use spaceport_bazzar_client.Base.{
  ltb, leb, if◌then◌else◌, ◌==◌, nat_eq, length, any, ℕ, ◌+◌, ◌-◌, ◌*◌, min, max, Bool, false, not,
  ◌&&◌, ◌||◌, Option, none, some, List, [], ◌∷◌,
}
use spaceport_bazzar_client.Domain.Bundle.{
  Resource, resource_eq, Bundle, get, bundle_of, saturating_sub, is_zero, total,
}
use spaceport_bazzar_client.Domain.Types.{object_eq, Offer, Snapshot, outgoing_open_offers}
use spaceport_bazzar_client.Execution.Actions.{OfferAction, Action}
use spaceport_bazzar_client.Policy.Memory.{PolicyMemory}
use spaceport_bazzar_client.Policy.Reserves.{
  watch_stock, production_normal_ticks, production_stop_ticks, stock_cap, Urgency, in_end_game,
  specialty_floor, production_payment_limit, import_ceiling,
}
use spaceport_bazzar_client.Policy.Pricing.{
  max_trade_size, max_bulk_trade_size, trade_size, desired_quantity, compute_terms,
}
use spaceport_bazzar_client.Policy.Accept.{some_resource}
use spaceport_bazzar_client.Policy.Targeting.{Candidate, rank_counterparties}
use spaceport_bazzar_client.Policy.Decide.Turn.{Turn, act, spend, ttl_of, has_normal_offers}

abbrev pub target_buffer_multiple : ℕ
target_buffer_multiple = 2

-- `violates_guard`
abbrev pub violates_guard : Option ℕ → Offer → Bool
violates_guard none o = false
violates_guard (some halves) o =
    is_zero o.receive || halves == 0 || ltb (halves * total o.receive) (2 * total o.give)

-- The tests of `_withdraw_dangerous`.
unfoldable pub is_dangerous : Snapshot → Bundle → Bundle → Option ℕ → Offer → Bool
is_dangerous snap reserve available ticks_left o =
    some_resource (λ r. ltb 0 (get o.give r) && ltb (get available r) (get reserve r))
    || violates_guard (production_payment_limit available snap.me ticks_left) o

-- `_withdraw_dangerous`, from the offers that are left
unfoldable pub withdraw_dangerous : Snapshot → Bundle → Option ℕ → List Offer → Turn → Turn
unfolding is_dangerous
withdraw_dangerous snap reserve ticks_left [] t = t
withdraw_dangerous snap reserve ticks_left (o ∷ offers) t =
    withdraw_dangerous snap reserve ticks_left offers (
      if not (t.budget == 0) && is_dangerous snap reserve t.available ticks_left o
      then act (Action.withdraw o.offer_id) t
      else t)

-- `import_ceiling(...) or STOCK_CAP`, at most `STOCK_CAP`
abbrev pub ceiling_of : Option ℕ → ℕ
ceiling_of none = stock_cap
ceiling_of (some ceiling) = if ceiling == 0 then stock_cap else min ceiling stock_cap

-- The amount to ask for of an import of which `have` is in stock. `-` stops at 0, which the maximum
-- with 5 and the test before it make harmless.
abbrev pub import_short : ℕ → ℕ → ℕ → ℕ → Bool → ℕ
import_short short have ceiling reserve bulk =
    if leb stock_cap have || ltb ceiling have
    then short
    else (let target = max watch_stock (reserve * target_buffer_multiple) in
        let room = if bulk then ceiling - have else 0 in
        min (max (max short (target - have)) (max 5 room)) (stock_cap - have))

-- `_wanted_quantities`; 0 stands for a resource that is no key
unfoldable pub wanted_quantities : Snapshot → Bundle → Bundle → Bundle → Resource → ℕ
wanted_quantities snap available reserve deficit r =
    let specialty = snap.me.specialty in
    let spare = get available specialty - specialty_floor snap.me none in
    let bulk = ltb max_trade_size (trade_size spare) in
    if r == specialty
    then get deficit r
    else import_short (get deficit r) (get available r)
        (ceiling_of (import_ceiling r available (some specialty))) (get reserve r) bulk

-- `(station_id, resource) in pending`
abbrev pub is_pending : List Offer → ℕ → Resource → Bool
is_pending outgoing sid r = any (λ o. o.recipient_id == sid && ltb 0 (get o.receive r)) outgoing

-- `floor_ticks`
abbrev pub floor_ticks : Option ℕ → Bool → ℕ
floor_ticks none preserve_normal = production_normal_ticks
floor_ticks (some _) preserve_normal =
    if preserve_normal then production_normal_ticks else production_stop_ticks

-- The specialty that must be left after a payment with or without the cap of a half.
abbrev pub floor_of : Snapshot → Option ℕ → Bool → Option ℕ → ℕ
floor_of snap ticks_left preserve_normal limit =
    if in_end_game ticks_left
    then specialty_floor snap.me ticks_left
    else floor_ticks limit preserve_normal * get snap.me.upkeep_per_tick snap.me.specialty

-- `payable`
abbrev pub payable_above : Resource → ℕ → Bundle → Bundle → Bundle
payable_above specialty floor surplus available =
    bundle_of
      (λ r. if r == specialty then min (get surplus r) (get available r - floor) else get surplus r)

-- The running state of the loop of `_propose_offers`.
pub record Proposal : Type 0 where
  pub turn : Turn
  pub surplus : Bundle
  pub preserve_normal : Bool
  pub room : ℕ

-- One attempt at terms, under one cap on payments.
unfoldable pub try_terms :
    Snapshot
    → (Resource → ℕ)
    → (Resource → Urgency)
    → Option ℕ
    → Candidate
    → Proposal
    → Option ℕ
    → Option (Bundle × Bundle)
try_terms snap wanted urgency ticks_left c p limit =
    let specialty = snap.me.specialty in
    let available = p.turn.available in
    let floor = floor_of snap ticks_left p.preserve_normal limit in
    let end_game = in_end_game ticks_left in
    let spare = get available specialty - specialty_floor snap.me ticks_left in
    let size = if end_game then max_bulk_trade_size else trade_size spare in
    if ltb (get available specialty) floor
    then none
    else compute_terms c.want (desired_quantity (wanted c.want) (some (get available c.want)) size)
        c.give (payable_above specialty floor p.surplus available) (urgency c.want) limit
        (some (get available c.want)) (end_game && c.give == specialty)

-- The inner loop of `_propose_offers`: without a cap, then at a half.
unfoldable pub terms_for :
    Snapshot
    → (Resource → ℕ)
    → (Resource → Urgency)
    → Option ℕ
    → Candidate
    → Proposal
    → Option (Bundle × Bundle)
unfolding try_terms
terms_for snap wanted urgency ticks_left c p =
    elim (try_terms snap wanted urgency ticks_left c p none) [
      | some terms ↦ some terms
      | none ↦
          if in_end_game ticks_left
          then none
          else try_terms snap wanted urgency ticks_left c p (some 1)
    ]

-- The offer that is made once terms are found.
abbrev pub propose : Snapshot → Candidate → Bundle → Bundle → Proposal → Proposal
propose snap c give receive p =
    let offered : OfferAction = record {
      recipient_id = c.station_id;
      give = give;
      receive = receive;
      expires_tick = snap.tick + ttl_of snap;
    } in
    record {
      turn = spend give (act (Action.offer offered) p.turn);
      surplus = saturating_sub p.surplus give;
      preserve_normal = p.preserve_normal || ltb (total receive) (2 * total give);
      room = p.room - 1;
    }

-- The body of the loop of `_propose_offers`. A break leaves the state as it is, and so does each
-- round after it.
unfoldable pub propose_one :
    Snapshot → (Resource → ℕ) → (Resource → Urgency) → Option ℕ → Candidate → Proposal → Proposal
unfolding terms_for
propose_one snap wanted urgency ticks_left c p =
    if p.turn.budget == 0 || p.room == 0
    then p
    else elim (terms_for snap wanted urgency ticks_left c p) [
      | none ↦ p
      | some (give, receive) ↦ if ttl_of snap == 0 then p else propose snap c give receive p
    ]

unfoldable pub propose_each :
    Snapshot
    → (Resource → ℕ)
    → (Resource → Urgency)
    → Option ℕ
    → List Candidate
    → Proposal
    → Proposal
unfolding propose_one
propose_each snap wanted urgency ticks_left [] p = p
propose_each snap wanted urgency ticks_left (c ∷ candidates) p =
    propose_each snap wanted urgency ticks_left candidates
      (propose_one snap wanted urgency ticks_left c p)

-- `_propose_offers`: the balance and the surplus that are left
unfoldable pub propose_offers :
    Snapshot
    → PolicyMemory
    → Bundle
    → Bundle
    → Bundle
    → (Resource → Urgency)
    → Option ℕ
    → Turn
    → Turn × Bundle
unfolding propose_each
propose_offers snap memory reserve surplus deficit urgency ticks_left t =
    let outgoing = outgoing_open_offers snap in
    let room = snap.rules.max_open_outgoing_offers - length outgoing in
    let wanted = wanted_quantities snap t.available reserve deficit in
    let candidates =
      rank_counterparties memory.counterparties urgency wanted surplus snap.tick
        (is_pending outgoing) (some snap.me.specialty) in
    let start : Proposal = record {
      turn = t;
      surplus = surplus;
      preserve_normal = has_normal_offers snap;
      room = room;
    } in
    if room == 0
    then (t, surplus)
    else (let last = propose_each snap wanted urgency ticks_left candidates start in
        (last.turn, last.surplus))
