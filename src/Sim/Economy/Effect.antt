-- ===== src/Sim/Economy/Effect.antt =====
-- What one command may do to the economy (bazaar_sim/economy.py): the contract of `execute`.
pub mod Guards
pub mod Commands
use spaceport_bazzar_client.Base.{
  ◌==◌, nat_eq, find?, ℕ, ◌+◌, ◌≤◌, ◌<◌, ◌≡◌, ◌≢◌, true, false, Option, none, some, List,
}
use spaceport_bazzar_client.Domain.Bundle.{resource_eq, dominates, is_zero}
use spaceport_bazzar_client.Domain.Types.{
  OfferStatus, ObjectId, object_eq, is_open, Offer, Advertisement,
}
use spaceport_bazzar_client.Execution.Actions.{AdvertiseAction, OfferAction, Action}
use spaceport_bazzar_client.Sim.Station.{SimStation}
use spaceport_bazzar_client.Sim.Economy.{
  CommandOutcome, is_ok, Economy, station_of, count_of, find_offer, close, open_count,
  post_advertisement, post_offer, remove_ad, settlement, settled, counted,
}

-- A caller whose command is processed.
pub record IsAdmitted (sid : ℕ) (e : Economy) : Type 0 where
  pub station : SimStation
  pub known : station_of sid e.stations ≡ some station
  pub alive : station.failed_once ≡ false
  pub in_time : e.tick < e.rules.duration_ticks
  pub in_quota : count_of sid e.command_counts < e.rules.new_commands_per_station_per_tick

-- An offer that `_precheck` lets through.
pub record IsPostable (sid : ℕ) (a : OfferAction) (e : Economy) : Type 0 where
  pub partner : SimStation
  pub known : station_of a.recipient_id e.stations ≡ some partner
  pub partner_alive : partner.failed_once ≡ false
  pub distinct : a.recipient_id ≢ sid
  pub gives : is_zero a.give ≡ false
  pub later : e.tick < a.expires_tick
  pub ttl : a.expires_tick ≤ e.tick + e.rules.max_offer_ttl_ticks
  pub ends : a.expires_tick ≤ e.rules.duration_ticks
  pub caller : SimStation
  pub caller_known : station_of sid e.stations ≡ some caller
  pub covers : dominates caller.inventory a.give ≡ true
  pub room : open_count sid e.offers < e.rules.max_open_outgoing_offers

-- An offer that its recipient may settle.
pub record IsSettleable (sid : ℕ) (o : Offer) (e : Economy) : Type 0 where
  pub found : find_offer o.offer_id e.offers ≡ some o
  pub addressed : o.recipient_id ≡ sid
  pub standing : is_open o.status ≡ true
  pub live : e.tick < o.expires_tick
  pub proposer : SimStation
  pub recipient : SimStation
  pub proposer_known : station_of o.proposer_id e.stations ≡ some proposer
  pub recipient_known : station_of o.recipient_id e.stations ≡ some recipient
  pub proposer_alive : proposer.failed_once ≡ false
  pub recipient_alive : recipient.failed_once ≡ false
  pub proposer_covers : dominates proposer.inventory o.give ≡ true
  pub recipient_covers : dominates recipient.inventory o.receive ≡ true

-- An advertisement that `_precheck` lets through.
pub record IsPublishable (a : AdvertiseAction) (e : Economy) : Type 0 where
  pub later : e.tick < a.expires_tick
  pub ttl : a.expires_tick ≤ e.tick + e.rules.max_publication_ttl_ticks
  pub ends : a.expires_tick ≤ e.rules.duration_ticks

-- The advertisement that a withdrawal finds.
abbrev pub find_ad : ObjectId → List Advertisement → Option Advertisement
find_ad oid = find? (λ a. a.advertisement_id == oid)

-- The economy after the withdrawal of an offer.
abbrev pub taken_back : ObjectId → Economy → Economy
taken_back oid e = record e { offers = close oid OfferStatus.withdrawn none e.tick e.offers }

-- Every way in which the command `action` can end.
pub data Effect (sid : ℕ) (action : Action) (e : Economy) (out : CommandOutcome) (e' : Economy)
    : Type 0 where
  unprocessed : is_ok out.code ≡ false → e' ≡ e → Effect sid action e out e'
  failed :
      IsAdmitted sid e → is_ok out.code ≡ false → e' ≡ counted sid e → Effect sid action e out e'
  advertised :
      IsAdmitted sid e
      → (a : AdvertiseAction) → action ≡ Action.advertise a
      → IsPublishable a e
      → is_ok out.code ≡ true
      → e' ≡ (post_advertisement sid a (counted sid e)).1
      → Effect sid action e out e'
  posted_offer :
      IsAdmitted sid e
      → (a : OfferAction) → action ≡ Action.offer a
      → IsPostable sid a e
      → is_ok out.code ≡ true
      → e' ≡ (post_offer sid a (counted sid e)).1
      → Effect sid action e out e'
  took_down :
      IsAdmitted sid e
      → (posted : Advertisement) → action ≡ Action.withdraw posted.advertisement_id
      → find_ad posted.advertisement_id e.advertisements ≡ some posted
      → posted.station_id ≡ sid
      → is_ok out.code ≡ true
      → e' ≡ record (counted sid e) {
        advertisements = remove_ad posted.advertisement_id e.advertisements;
      }
      → Effect sid action e out e'
  withdrew :
      IsAdmitted sid e
      → (o : Offer) → action ≡ Action.withdraw o.offer_id
      → find_ad o.offer_id e.advertisements ≡ none
      → find_offer o.offer_id e.offers ≡ some o
      → o.proposer_id ≡ sid
      → is_open o.status ≡ true
      → is_ok out.code ≡ true
      → e' ≡ taken_back o.offer_id (counted sid e)
      → Effect sid action e out e'
  accepted :
      IsAdmitted sid e
      → (o : Offer) → action ≡ Action.accept o.offer_id
      → IsSettleable sid o e
      → (l : List SimStation) → settlement o e.stations ≡ some l
      → is_ok out.code ≡ true
      → e' ≡ settled o l (counted sid e)
      → Effect sid action e out e'
