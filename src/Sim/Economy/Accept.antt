-- ===== src/Sim/Economy/Accept.antt =====
-- `SimulatedEconomy._accept` (bazaar_sim/economy.py): settlement of an offer.
use spaceport_bazzar_client.Base.{
  if◌then◌else◌, ◌==◌, nat_eq, ◌>>=◌, ℕ, ◌+◌, not, ◌||◌, Option, none, some, List, [], ◌∷◌, ◌++◌,
}
use spaceport_bazzar_client.Domain.Bundle.{resource_eq, Bundle, add, dominates, sub}
use spaceport_bazzar_client.Domain.Types.{
  OfferStatus, ResultCode, ObjectId, object_eq, is_open, Offer, is_expired_at, Transaction,
}
use spaceport_bazzar_client.Sim.Station.{SimStation}
use spaceport_bazzar_client.Sim.Economy.State.{
  CommandOutcome, refused, Economy, station_of, try_station, find_offer, close,
}

-- `s.inventory = s.inventory - paid + got`; the subtraction is strict
unfoldable pub exchange : Bundle → Bundle → SimStation → Option SimStation
exchange paid got s = do rest ← sub s.inventory paid; some (record s { inventory = add rest got })

-- `s.exported = s.exported + paid` and `s.imported = s.imported + got`
unfoldable pub count_trade : Bundle → Bundle → SimStation → Option SimStation
count_trade paid got s =
    some (record s { exported = add s.exported paid; imported = add s.imported got })

-- The four writes of a settlement, one after another.
abbrev pub settlement : Offer → List SimStation → Option (List SimStation)
settlement o l = do
  paid ← try_station o.proposer_id (exchange o.give o.receive) l
  both ← try_station o.recipient_id (exchange o.receive o.give) paid
  counted ← try_station o.proposer_id (count_trade o.give o.receive) both
  try_station o.recipient_id (count_trade o.receive o.give) counted

-- The transaction that a settlement records.
abbrev pub transaction_of : Offer → Economy → Transaction
transaction_of o e = record {
  transaction_id = ObjectId.txn e.next_id;
  offer_id = o.offer_id;
  proposer_id = o.proposer_id;
  recipient_id = o.recipient_id;
  give = o.give;
  receive = o.receive;
  settled_tick = e.tick;
  settled_version = e.world_version;
}

-- The economy after a settlement that leaves the stations as `l`.
abbrev pub settled : Offer → List SimStation → Economy → Economy
settled o l e = record e {
  stations = l;
  next_id = e.next_id + 1;
  offers = close o.offer_id OfferStatus.accepted (some (ObjectId.txn e.next_id)) e.tick e.offers;
  transactions = e.transactions ++ transaction_of o e ∷ [];
}

-- The writes of `_accept`, all of its guards passed.
unfoldable pub settle_offer : Offer → Economy → Option (CommandOutcome × Economy)
unfolding try_station exchange count_trade
settle_offer o e = do
  stations ← settlement o e.stations
  some (
    record {
      code = ResultCode.ok;
      object_id = some o.offer_id;
      transaction_id = some (ObjectId.txn e.next_id);
    },
    settled o stations e,
  )

-- The guards of `_accept` on the two stations.
unfoldable pub accept_between : Offer → Economy → Option (CommandOutcome × Economy)
unfolding settle_offer
accept_between o e = do
  proposer ← station_of o.proposer_id e.stations
  recipient ← station_of o.recipient_id e.stations
  if proposer.failed_once || recipient.failed_once
      then some (refused ResultCode.station_failed, e)
      else if not (dominates proposer.inventory o.give)
          || not (dominates recipient.inventory o.receive)
      then some (refused ResultCode.insufficient_resources, e)
      else settle_offer o e

-- `_accept`, on the offer that it finds
unfoldable pub accept_offer : ℕ → Offer → Economy → Option (CommandOutcome × Economy)
unfolding accept_between
accept_offer sid o e =
    if not (o.recipient_id == sid)
    then some (refused ResultCode.invalid_argument, e)
    else if not (is_open o.status)
    then some (refused ResultCode.not_open, e)
    else if is_expired_at o e.tick
    then some (refused ResultCode.expired, e)
    else accept_between o e

-- `_accept`
unfoldable pub accept_command : ℕ → ObjectId → Economy → Option (CommandOutcome × Economy)
unfolding accept_offer
accept_command sid oid e = elim (find_offer oid e.offers) [
  | none ↦ some (refused ResultCode.not_found, e)
  | some o ↦ accept_offer sid o e
]
