-- ===== src/Sim/Economy/Posting.antt =====
-- `_advertise`, `_post_offer` and `_withdraw` of `SimulatedEconomy` (bazaar_sim/economy.py).
use spaceport_bazzar_client.Base.{
  if◌then◌else◌, ◌==◌, nat_eq, keep_if, find?, ℕ, ◌+◌, not, none, some, List, [], ◌∷◌, ◌++◌,
}
use spaceport_bazzar_client.Domain.Bundle.{resource_eq}
use spaceport_bazzar_client.Domain.Types.{
  OfferStatus, PublicationStatus, ResultCode, ObjectId, object_eq, is_open, Offer, Advertisement,
}
use spaceport_bazzar_client.Execution.Actions.{AdvertiseAction, OfferAction}
use spaceport_bazzar_client.Sim.Economy.State.{CommandOutcome, refused, Economy, find_offer, close}

unfoldable pub post_advertisement : ℕ → AdvertiseAction → Economy → CommandOutcome × Economy
post_advertisement sid a e =
    let ad : Advertisement = record {
      advertisement_id = ObjectId.ad e.next_id;
      station_id = sid;
      selling = a.selling;
      seeking = a.seeking;
      created_tick = e.tick;
      expires_tick = a.expires_tick;
      created_version = e.world_version;
      status = PublicationStatus.active;
    } in
    (
      record { code = ResultCode.ok; object_id = some ad.advertisement_id; transaction_id = none },
      record e {
        advertisements = keep_if (λ b. not (b.station_id == sid)) e.advertisements ++ ad ∷ [];
        next_id = e.next_id + 1;
      },
    )

-- The offer that `_post_offer` adds.
abbrev pub posted : ℕ → OfferAction → Economy → Offer
posted sid a e = record {
  offer_id = ObjectId.offer e.next_id;
  proposer_id = sid;
  recipient_id = a.recipient_id;
  give = a.give;
  receive = a.receive;
  created_tick = e.tick;
  created_version = e.world_version;
  expires_tick = a.expires_tick;
  status = OfferStatus.open_;
  closed_tick = none;
  transaction_id = none;
}

unfoldable pub post_offer : ℕ → OfferAction → Economy → CommandOutcome × Economy
post_offer sid a e = (
  record {
    code = ResultCode.ok;
    object_id = some (ObjectId.offer e.next_id);
    transaction_id = none;
  },
  record e { offers = e.offers ++ posted sid a e ∷ []; next_id = e.next_id + 1 },
)

-- `self.advertisements.remove(ad)`
unfoldable pub remove_ad : ObjectId → List Advertisement → List Advertisement
remove_ad oid [] = []
remove_ad oid (a ∷ ads) =
    let rest = remove_ad oid ads in if a.advertisement_id == oid then ads else a ∷ rest

-- `_withdraw`, once no advertisement has the id
unfoldable pub withdraw_offer : ℕ → ObjectId → Economy → CommandOutcome × Economy
withdraw_offer sid oid e = elim (find_offer oid e.offers) [
  | none ↦ (refused ResultCode.not_found, e)
  | some o ↦
      if not (o.proposer_id == sid)
      then (refused ResultCode.invalid_argument, e)
      else if not (is_open o.status)
      then (refused ResultCode.not_open, e)
      else (
        record { code = ResultCode.ok; object_id = some oid; transaction_id = none },
        record e { offers = close oid OfferStatus.withdrawn none e.tick e.offers },
      )
]

-- `_withdraw`
unfoldable pub withdraw_command : ℕ → ObjectId → Economy → CommandOutcome × Economy
unfolding withdraw_offer
withdraw_command sid oid e = elim (find? (λ a. a.advertisement_id == oid) e.advertisements) [
  | some a ↦ if not (a.station_id == sid) then (refused ResultCode.invalid_argument, e) else (
    record { code = ResultCode.ok; object_id = some oid; transaction_id = none },
    record e { advertisements = remove_ad oid e.advertisements },
  )
  | none ↦ withdraw_offer sid oid e
]
