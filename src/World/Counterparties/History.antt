-- ===== src/World/Counterparties/History.antt =====
-- The offers and trades that the model of bazaar_client/world/counterparties.py learns from, and its
-- `update`.
use spaceport_bazzar_client.Base.{
  ltb, if◌then◌else◌, ◌==◌, nat_eq, any, ℕ, ◌+◌, ◌*◌, ◌/◌, max, Bool, true, false, not, ◌||◌,
  Option, none, some, List, [], ◌∷◌,
}
use spaceport_bazzar_client.Domain.Bundle.{resource_eq, Bundle, get, total}
use spaceport_bazzar_client.Domain.Types.{OfferStatus, object_eq, Offer, Transaction, Snapshot}
use spaceport_bazzar_client.World.Counterparties.{
  CounterpartyStats, CounterpartyModel, change_or_add, update_directory, update_advertisements,
}

-- `status in RECIPIENT_DECIDED`
abbrev pub is_recipient_decided : OfferStatus → Bool
is_recipient_decided OfferStatus.accepted = true
is_recipient_decided OfferStatus.expired = true
is_recipient_decided _ = false

-- `max(last, tick)`, where the last may be -1
abbrev pub later_of : Option ℕ → ℕ → Option ℕ
later_of none tick = some tick
later_of (some last) tick = some (max last tick)

abbrev pub closing_tick : Offer → ℕ
closing_tick o = elim o.closed_tick [ none ↦ o.expires_tick | some tick ↦ tick ]

-- The branch for an accepted offer.
abbrev pub took : CounterpartyStats → CounterpartyStats
took s = record s {
  offers_sent_to = s.offers_sent_to + 1;
  offers_accepted_by = s.offers_accepted_by + 1;
  consecutive_expired = 0;
  size_limit = elim s.size_limit [ none ↦ none | some limit ↦ some (limit * 2) ];
}

-- The branch for an offer that lapsed.
abbrev pub let_lapse : Offer → CounterpartyStats → CounterpartyStats
let_lapse o s = record s {
  offers_sent_to = s.offers_sent_to + 1;
  consecutive_expired = s.consecutive_expired + 1;
  last_expired_tick = later_of s.last_expired_tick (closing_tick o);
  size_limit = if total o.receive == 0 then s.size_limit else some (max 1 (total o.receive / 2));
}

abbrev pub decided : Offer → CounterpartyStats → CounterpartyStats
decided o s = elim o.status [ OfferStatus.accepted ↦ took s | _ ↦ let_lapse o s ]

abbrev pub awake : CounterpartyStats → CounterpartyStats
awake s = record s { ever_active = true }

-- One round of `_update_offer_history`.
unfoldable pub learn_offer : ℕ → Offer → CounterpartyModel → CounterpartyModel
learn_offer me o m =
    if o.recipient_id == me
    then record m { known = change_or_add o.proposer_id awake m.known }
    else if not (o.proposer_id == me)
    then m
    else if not (is_recipient_decided o.status) || any (λ i. i == o.offer_id) m.counted_offers
    then m
    else record {
      known = change_or_add o.recipient_id (decided o) m.known;
      counted_offers = o.offer_id ∷ m.counted_offers;
    }

unfoldable pub update_offer_history : ℕ → List Offer → CounterpartyModel → CounterpartyModel
unfolding learn_offer
update_offer_history me [] m = m
update_offer_history me (o ∷ offers) m = update_offer_history me offers (learn_offer me o m)

-- `stats.ever_active = True` and `stats.supplied.update(...)`
abbrev pub handed_over : Bundle → CounterpartyStats → CounterpartyStats
handed_over received s = record s {
  ever_active = true;
  supplied = λ r. s.supplied r || ltb 0 (get received r);
}

unfoldable pub update_supply :
    ℕ → List Transaction → List CounterpartyStats → List CounterpartyStats
update_supply me [] l = l
update_supply me (t ∷ transactions) l = update_supply me transactions (
    if me == t.recipient_id
    then change_or_add t.proposer_id (handed_over t.give) l
    else if me == t.proposer_id
    then change_or_add t.recipient_id (handed_over t.receive) l
    else l)

-- `CounterpartyModel.update`
unfoldable pub update : Snapshot → CounterpartyModel → CounterpartyModel
unfolding update_directory update_advertisements update_offer_history update_supply
update snap m =
    let me = snap.self_station_id in
    let heard = update_advertisements snap (update_directory me snap.directory m.known) in
    let learnt = update_offer_history me snap.offers (record m { known = heard }) in
    record learnt { known = update_supply me snap.transactions learnt.known }
