-- ===== src/Sim/Economy/State.antt =====
-- The state of `SimulatedEconomy` (bazaar_sim/economy.py) and the writes to its containers. The
-- dictionary of stations is the list of its values in insertion order. A method returns the new
-- state; `none` is a raised `KeyError` (no such station) or `NegativeBundleError`.
use spaceport_bazzar_client.Base.{
  if◌then◌else◌, ◌==◌, nat_eq, ◌>>=◌, find?, ℕ, Bool, true, false, Option, none, some, List, [],
  ◌∷◌, map,
}
use spaceport_bazzar_client.Domain.Bundle.{resource_eq}
use spaceport_bazzar_client.Domain.Types.{
  OfferStatus, ResultCode, ObjectId, object_eq, Rules, Offer, Transaction, Advertisement,
}
use spaceport_bazzar_client.Sim.Station.{SimStation}

pub record CommandOutcome : Type 0 where
  pub code : ResultCode
  pub object_id : Option ObjectId
  pub transaction_id : Option ObjectId

-- `CommandOutcome(code)`
abbrev pub refused : ResultCode → CommandOutcome
refused c = record { code = c; object_id = none; transaction_id = none }

-- `CommandOutcome.ok`
abbrev pub is_ok : ResultCode → Bool
is_ok ResultCode.ok = true
is_ok _ = false

pub record Economy : Type 0 where
  pub stations : List SimStation
  pub rules : Rules
  pub run_id : ℕ
  pub tick : ℕ
  pub world_version : ℕ
  pub sequence : ℕ
  pub offers : List Offer
  pub transactions : List Transaction
  pub advertisements : List Advertisement
  -- the number that `next(self._ids)` gives
  pub next_id : ℕ
  pub command_counts : List (ℕ × ℕ)
  pub rejections : List (ℕ × ResultCode)

-- `self.stations.get(sid)`
abbrev pub station_of : ℕ → List SimStation → Option SimStation
station_of sid = find? (λ s. s.station_id == sid)

-- A write to the attributes of `self.stations[sid]`, which may raise.
unfoldable pub try_station :
    ℕ → (SimStation → Option SimStation) → List SimStation → Option (List SimStation)
try_station sid f [] = none
try_station sid f (s ∷ rest) =
    let kept = try_station sid f rest in
    if s.station_id == sid then f s >>= (λ t. some (t ∷ rest)) else kept >>= (λ k. some (s ∷ k))

-- `self.command_counts.get(sid, 0)`
abbrev pub count_of : ℕ → List (ℕ × ℕ) → ℕ
count_of sid [] = 0
count_of sid ((j, n) ∷ counts) = if j == sid then n else count_of sid counts

-- `self.command_counts[sid] = n`
unfoldable pub set_count : ℕ → ℕ → List (ℕ × ℕ) → List (ℕ × ℕ)
set_count sid n [] = (sid, n) ∷ []
set_count sid n ((j, m) ∷ counts) =
    if j == sid then (sid, n) ∷ counts else (j, m) ∷ set_count sid n counts

abbrev pub find_offer : ObjectId → List Offer → Option Offer
find_offer oid = find? (λ o. o.offer_id == oid)

unfoldable pub close_one : ObjectId → OfferStatus → Option ObjectId → ℕ → Offer → Offer
close_one oid status txn tick o =
    if o.offer_id == oid
    then record o { status = status; closed_tick = some tick; transaction_id = txn }
    else o

-- `_close`
abbrev pub close : ObjectId → OfferStatus → Option ObjectId → ℕ → List Offer → List Offer
close oid status txn tick = map (close_one oid status txn tick)
