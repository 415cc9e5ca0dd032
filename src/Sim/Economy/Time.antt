-- ===== src/Sim/Economy/Time.antt =====
-- `advance_tick`, `finished` and `end_run` of `SimulatedEconomy` (bazaar_sim/economy.py).
use spaceport_bazzar_client.Base.{
  ltb, leb, if◌then◌else◌, ◌==◌, nat_eq, ◌>>=◌, keep_if, any, ℕ, ◌+◌, Bool, not, ◌&&◌, ◌||◌, Option,
  none, some, List, [], ◌∷◌,
}
use spaceport_bazzar_client.Domain.Bundle.{resource_eq}
use spaceport_bazzar_client.Domain.Types.{OfferStatus, object_eq, is_open, Rules, Offer}
use spaceport_bazzar_client.Sim.Station.{SimStation, settle_tick}
use spaceport_bazzar_client.Sim.Economy.State.{Economy, close_one, close}

-- The loop `for offer in list(self.offers): if test(offer): self._close(offer.offer_id, status)`:
-- it runs over a copy, the first list, and rewrites the second.
unfoldable pub close_each : (Offer → Bool) → OfferStatus → ℕ → List Offer → List Offer → List Offer
unfolding close_one
close_each test status tick [] offers = offers
close_each test status tick (o ∷ copy) offers =
    close_each test status tick copy
      (if test o then close o.offer_id status none tick offers else offers)

abbrev pub close_where : (Offer → Bool) → OfferStatus → ℕ → List Offer → List Offer
close_where test status tick offers = close_each test status tick offers offers

-- `for station in self.stations.values(): station.settle_tick(self.rules, self.tick)`
unfoldable pub settle_all : Rules → ℕ → List SimStation → Option (List SimStation)
unfolding settle_tick
settle_all rules tick [] = some []
settle_all rules tick (s ∷ rest) = do
  s' ← settle_tick rules tick s
  rest' ← settle_all rules tick rest
  some (s' ∷ rest')

-- `sid in failed`
abbrev pub has_failed : List SimStation → ℕ → Bool
has_failed stations sid = any (λ s. s.station_id == sid && s.failed_once) stations

-- an open offer whose deadline has come
abbrev pub is_overdue : ℕ → Offer → Bool
is_overdue tick o = is_open o.status && leb o.expires_tick tick

-- an open offer with a failed party
abbrev pub is_orphaned : List SimStation → Offer → Bool
is_orphaned stations o =
    is_open o.status && (has_failed stations o.proposer_id || has_failed stations o.recipient_id)

unfoldable pub advance_tick : Economy → Option Economy
unfolding close_each settle_all
advance_tick e = do
  let tick = e.tick + 1
  let current = close_where (is_overdue tick) OfferStatus.expired tick e.offers
  let fresh = keep_if (λ a. ltb tick a.expires_tick) e.advertisements
  stations ← settle_all e.rules tick e.stations
  some (record e {
    tick = tick;
    command_counts = [];
    world_version = e.world_version + 1;
    stations = stations;
    advertisements = keep_if (λ a. not (has_failed stations a.station_id)) fresh;
    offers = close_where (is_orphaned stations) OfferStatus.withdrawn tick current;
  })

unfoldable pub is_finished : Economy → Bool
is_finished e = leb e.rules.duration_ticks e.tick

unfoldable pub end_run : Economy → Economy
unfolding close_each
end_run e = record e {
  offers = close_where (λ o. is_open o.status) OfferStatus.run_ended e.tick e.offers;
  advertisements = [];
  world_version = e.world_version + 1;
}

-- `for i, station in enumerate(stations.values()): station.production = produce(i)`, from index `i`
unfoldable pub set_production : (ℕ → ℕ) → ℕ → List SimStation → List SimStation
set_production produce i [] = []
set_production produce i (s ∷ rest) =
    record s { production = produce i } ∷ set_production produce (i + 1) rest

-- `_apply_production` of the server, and the same loop in `run_world`
unfoldable pub apply_production : (ℕ → ℕ → ℕ) → Economy → Economy
unfolding set_production
apply_production produce e = record e { stations = set_production (produce e.tick) 0 e.stations }
