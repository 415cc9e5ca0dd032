-- ===== src/Sim/Economy/Precheck.antt =====
-- `SimulatedEconomy._precheck` (bazaar_sim/economy.py).
use spaceport_bazzar_client.Base.{
  ltb, leb, if◌then◌else◌, ◌==◌, nat_eq, length, keep_if, ℕ, ◌+◌, min, Bool, not, ◌&&◌, ◌||◌,
  Option, none, some, List,
}
use spaceport_bazzar_client.Domain.Bundle.{resource_eq, dominates, is_zero}
use spaceport_bazzar_client.Domain.Types.{ResultCode, object_eq, is_open, Rules, Offer}
use spaceport_bazzar_client.Execution.Actions.{OfferAction, Action}
use spaceport_bazzar_client.Sim.Station.{SimStation}
use spaceport_bazzar_client.Sim.Economy.State.{Economy, station_of, count_of}

-- `tick < expires_tick <= min(tick + ttl, duration)`
abbrev pub lifetime_ok : Rules → ℕ → ℕ → ℕ → Bool
lifetime_ok rules tick ttl expires =
    ltb tick expires && leb expires (min (tick + ttl) rules.duration_ticks)

-- `open_count` of `_precheck`
unfoldable pub open_count : ℕ → List Offer → ℕ
open_count sid offers = length (keep_if (λ o. o.proposer_id == sid && is_open o.status) offers)

-- The part of `_precheck` for an offer.
unfoldable pub precheck_offer : ℕ → SimStation → OfferAction → Economy → Option ResultCode
unfolding open_count
precheck_offer sid station a e =
    if a.recipient_id == sid || is_zero a.give
    then some ResultCode.invalid_argument
    else elim (station_of a.recipient_id e.stations) [
      | none ↦ some ResultCode.invalid_argument
      | some recipient ↦
          if recipient.failed_once
          then some ResultCode.station_failed
          else if not (dominates station.inventory a.give)
          then some ResultCode.insufficient_resources
          else if leb e.rules.max_open_outgoing_offers (open_count sid e.offers)
          then some ResultCode.limit_reached
          else none
    ]

-- The tests of `_precheck` that depend on the kind of action.
unfoldable pub precheck_action : ℕ → SimStation → Action → Economy → Option ResultCode
unfolding precheck_offer
precheck_action sid station (Action.advertise a) e =
    if lifetime_ok e.rules e.tick e.rules.max_publication_ttl_ticks a.expires_tick
    then none
    else some ResultCode.invalid_argument
precheck_action sid station (Action.offer a) e =
    if lifetime_ok e.rules e.tick e.rules.max_offer_ttl_ticks a.expires_tick
    then precheck_offer sid station a e
    else some ResultCode.invalid_argument
precheck_action sid station _ e = none

-- `_precheck` on the caller's station
unfoldable pub precheck : ℕ → SimStation → Action → Economy → Option ResultCode
unfolding precheck_action
precheck sid station action e =
    if station.failed_once
    then some ResultCode.station_failed
    else if leb e.rules.duration_ticks e.tick
    then some ResultCode.run_not_running
    else if leb e.rules.new_commands_per_station_per_tick (count_of sid e.command_counts)
    then some ResultCode.rate_limited
    else precheck_action sid station action e
