-- ===== src/Domain/Types.antt =====
-- The enumerations and records of bazaar_client/domain/types.py. Ids are texts that the program
-- only compares. A station, run or request id is a number here; the id of an offer, advertisement
-- or transaction is the text `f"{prefix}-{n}"` of the simulator, told apart by prefix and number,
-- and `foreign` stands for every other text. Ticks, versions and counters are `uint64` on the wire.
use Prim.Native.String.{String}
use spaceport_bazzar_client.Base.{
  leb, if◌then◌else◌, Eq, ◌==◌, nat_eq, keep_if, find?, ℕ, String, ◌≡◌, ◌↔◌, Bool, true, false, not,
  ◌&&◌, Option, none, some, List, arith,
}
use spaceport_bazzar_client.Domain.Bundle.{Resource, Bundle, is_zero}

pub data Phase : Type 0 where
  ready running paused finished aborted : Phase

pub data OfferStatus : Type 0 where
  open_ accepted withdrawn expired run_ended : OfferStatus

pub data PublicationStatus : Type 0 where
  active replaced withdrawn expired run_ended : PublicationStatus

pub data ResultCode : Type 0 where
  ok request_id_conflict run_not_running rate_limited invalid_argument not_found : ResultCode
  expired not_open limit_reached insufficient_resources station_failed : ResultCode

pub data ControlCode : Type 0 where
  bad_message request_capacity_exceeded unsupported_version run_mismatch : ControlCode
  invalid_authentication session_fenced : ControlCode

pub data ObjectId : Type 0 where
  ad offer txn foreign : ℕ → ObjectId

abbrev same_object : ObjectId → ObjectId → Bool
same_object (ObjectId.ad m) (ObjectId.ad n) = m == n
same_object (ObjectId.offer m) (ObjectId.offer n) = m == n
same_object (ObjectId.txn m) (ObjectId.txn n) = m == n
same_object (ObjectId.foreign m) (ObjectId.foreign n) = m == n
same_object _ _ = false

pub same_object_iff : (a b : ObjectId) → (same_object a b ≡ true) ↔ (a ≡ b)
same_object_iff a b = ground arith

instance abbrev pub object_eq : Eq ObjectId
object_eq = record { beq = same_object; beq_iff = same_object_iff }

-- `status is OfferStatus.OPEN`
abbrev pub is_open : OfferStatus → Bool
is_open OfferStatus.open_ = true
is_open _ = false

-- `status is PublicationStatus.ACTIVE`
abbrev pub is_active : PublicationStatus → Bool
is_active PublicationStatus.active = true
is_active _ = false

pub record Rules : Type 0 where
  pub rules_version : String
  pub duration_ticks : ℕ
  pub tick_duration_ms : ℕ
  pub resource_order : List Resource
  pub max_health : ℕ
  pub shortage_damage_per_unit : ℕ
  pub recovery_per_fully_supplied_tick : ℕ
  pub max_publication_ttl_ticks : ℕ
  pub max_offer_ttl_ticks : ℕ
  pub new_commands_per_station_per_tick : ℕ
  pub max_request_records_per_station : ℕ
  pub max_open_outgoing_offers : ℕ
  pub max_command_bytes : ℕ

pub record StationObservation : Type 0 where
  pub station_id : ℕ
  pub inventory : Bundle
  pub health : ℕ
  pub failed_once : Bool
  pub first_failure_tick : Option ℕ
  pub last_production : Bundle
  pub last_unmet_upkeep : Bundle
  pub fully_supplied_ticks : ℕ
  pub shortage_ticks : ℕ
  pub current_shortage_streak : ℕ
  pub longest_shortage_streak : ℕ
  pub produced_total : Bundle
  pub consumed_total : Bundle
  pub unmet_total : Bundle
  pub imported_total : Bundle
  pub exported_total : Bundle
  pub upkeep_per_tick : Bundle
  pub specialty : Resource

pub record DirectoryEntry : Type 0 where
  pub station_id : ℕ
  pub display_name : String

-- `give` and `receive` are always the proposer's perspective.
pub record Offer : Type 0 where
  pub offer_id : ObjectId
  pub proposer_id : ℕ
  pub recipient_id : ℕ
  pub give : Bundle
  pub receive : Bundle
  pub created_tick : ℕ
  pub created_version : ℕ
  pub expires_tick : ℕ
  pub status : OfferStatus
  pub closed_tick : Option ℕ
  pub transaction_id : Option ObjectId

-- `Offer.is_expired_at`: deadlines are exclusive
abbrev pub is_expired_at : Offer → ℕ → Bool
is_expired_at o tick = leb o.expires_tick tick

unfoldable pub is_open_at : Offer → ℕ → Bool
is_open_at o tick = is_open o.status && not (is_expired_at o tick)

-- `none` is the `ValueError` for a station that is no party to the offer
unfoldable pub what_station_pays : Offer → ℕ → Option Bundle
what_station_pays o sid =
    if sid == o.proposer_id
    then some o.give
    else if sid == o.recipient_id
    then some o.receive
    else none

unfoldable pub what_station_receives : Offer → ℕ → Option Bundle
what_station_receives o sid =
    if sid == o.proposer_id
    then some o.receive
    else if sid == o.recipient_id
    then some o.give
    else none

unfoldable pub is_gift_to : Offer → ℕ → Bool
is_gift_to o sid = sid == o.recipient_id && is_zero o.receive

pub record Transaction : Type 0 where
  pub transaction_id : ObjectId
  pub offer_id : ObjectId
  pub proposer_id : ℕ
  pub recipient_id : ℕ
  pub give : Bundle
  pub receive : Bundle
  pub settled_tick : ℕ
  pub settled_version : ℕ

-- A frozen set of resources, as its membership test.
pub record Advertisement : Type 0 where
  pub advertisement_id : ObjectId
  pub station_id : ℕ
  pub selling : Resource → Bool
  pub seeking : Resource → Bool
  pub created_tick : ℕ
  pub expires_tick : ℕ
  pub created_version : ℕ
  pub status : PublicationStatus

-- `Advertisement.is_expired_at`
abbrev pub ad_is_expired_at : Advertisement → ℕ → Bool
ad_is_expired_at a tick = leb a.expires_tick tick

pub record CommandResult : Type 0 where
  pub request_id : ℕ
  pub is_ok : Bool
  pub code : ResultCode
  pub processed_tick : ℕ
  pub processed_version : ℕ
  pub object_id : Option ObjectId
  pub transaction_id : Option ObjectId
  pub retry_after_tick : Option ℕ

pub record ProtocolErrorEvent : Type 0 where
  pub run_id : Option ℕ
  pub request_id : Option ℕ
  pub code : ControlCode
  pub close_session : Bool

pub record ReadinessAck : Type 0 where
  pub run_id : ℕ
  pub ready : Bool
  pub snapshot_sequence : ℕ

pub record PlayerOutcome : Type 0 where
  pub collective_success : Option Bool
  pub self_failed : Bool
  pub aborted : Bool

pub record Snapshot : Type 0 where
  pub run_id : ℕ
  pub snapshot_sequence : ℕ
  pub world_version : ℕ
  pub tick : ℕ
  pub phase : Phase
  pub self_station_id : ℕ
  pub rules : Rules
  pub directory : List DirectoryEntry
  pub me : StationObservation
  pub offers : List Offer
  pub advertisements : List Advertisement
  pub transactions : List Transaction
  pub request_results : List CommandResult
  pub outcome : Option PlayerOutcome

unfoldable pub incoming_open_offers : Snapshot → List Offer
unfolding is_open_at
incoming_open_offers s =
    keep_if (λ o. o.recipient_id == s.self_station_id && is_open_at o s.tick) s.offers

unfoldable pub outgoing_open_offers : Snapshot → List Offer
unfolding is_open_at
outgoing_open_offers s =
    keep_if (λ o. o.proposer_id == s.self_station_id && is_open_at o s.tick) s.offers

unfoldable pub own_advertisement : Snapshot → Option Advertisement
own_advertisement s =
    find? (λ a. a.station_id == s.self_station_id && is_active a.status) s.advertisements

pub data ServerEvent : Type 0 where
  snapshot : Snapshot → ServerEvent
  command_result : CommandResult → ServerEvent
  protocol_error : ProtocolErrorEvent → ServerEvent
  readiness : ReadinessAck → ServerEvent
