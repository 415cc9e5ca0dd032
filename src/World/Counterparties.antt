-- ===== src/World/Counterparties.antt =====
-- `CounterpartyModel` of bazaar_client/world/counterparties.py. The dictionary of stations is the
-- list of its values in insertion order; a set of resources is its membership test.
pub mod History
pub mod Plausible
pub mod Observed
pub mod InPlay
use spaceport_bazzar_client.Base.{
  ltb, if◌then◌else◌, ◌==◌, nat_eq, keep_if, find?, any, ℕ, ◌+◌, String, Bool, true, false, not,
  ◌||◌, Option, none, some, List, [], ◌∷◌, map,
}
use spaceport_bazzar_client.Domain.Bundle.{Resource, resource_eq}
use spaceport_bazzar_client.Domain.Types.{
  station_failed, ObjectId, object_eq, is_active, DirectoryEntry, Advertisement, ad_is_expired_at,
  Snapshot,
}

pub record CounterpartyStats : Type 0 where
  pub station_id : ℕ
  pub display_name : String
  pub selling : Resource → Bool
  pub seeking : Resource → Bool
  -- 0 for a resource that is no key: a streak that is stored is at least 1
  pub seeking_streak : Resource → ℕ
  -- `none` is the -1 of no advertisement, and of no lapsed offer below
  pub last_ad_tick : Option ℕ
  pub offers_sent_to : ℕ
  pub offers_accepted_by : ℕ
  pub station_failed : Bool
  pub supplied : Resource → Bool
  pub ever_active : Bool
  pub consecutive_expired : ℕ
  pub last_expired_tick : Option ℕ
  pub size_limit : Option ℕ

-- `CounterpartyStats(station_id)`
abbrev pub new_stats : ℕ → CounterpartyStats
new_stats sid = record {
  station_id = sid;
  display_name = "";
  selling = λ r. false;
  seeking = λ r. false;
  seeking_streak = λ r. 0;
  last_ad_tick = none;
  offers_sent_to = 0;
  offers_accepted_by = 0;
  station_failed = false;
  supplied = λ r. false;
  ever_active = false;
  consecutive_expired = 0;
  last_expired_tick = none;
  size_limit = none;
}

pub record CounterpartyModel : Type 0 where
  pub known : List CounterpartyStats
  pub counted_offers : List ObjectId

abbrev pub no_counterparties : CounterpartyModel
no_counterparties = record { known = []; counted_offers = [] }

-- `stations()`
abbrev pub stations_in_play : CounterpartyModel → List CounterpartyStats
stations_in_play m = keep_if (λ s. not s.station_failed) m.known

-- `get(station_id)`
abbrev pub stats_of : ℕ → CounterpartyModel → Option CounterpartyStats
stats_of sid m = find? (λ s. s.station_id == sid) m.known

-- A write to the attributes of the station, if it is known.
pub change :
    ℕ → (CounterpartyStats → CounterpartyStats) → List CounterpartyStats → List CounterpartyStats
change sid f [] = []
change sid f (s ∷ l) =
    let rest = change sid f l in if s.station_id == sid then f s ∷ l else s ∷ rest

unfoldable pub mark_failed : ℕ → CounterpartyModel → CounterpartyModel
unfolding change
mark_failed sid m = record m {
  known = change sid (λ s. record s { station_failed = true }) m.known;
}

-- A write to the attributes of `self._stations.setdefault(sid, CounterpartyStats(sid))`.
pub change_or_add :
    ℕ → (CounterpartyStats → CounterpartyStats) → List CounterpartyStats → List CounterpartyStats
change_or_add sid f [] = f (new_stats sid) ∷ []
change_or_add sid f (s ∷ l) =
    let rest = change_or_add sid f l in if s.station_id == sid then f s ∷ l else s ∷ rest

pub update_directory : ℕ → List DirectoryEntry → List CounterpartyStats → List CounterpartyStats
unfolding change_or_add
update_directory me [] l = l
update_directory me (d ∷ directory) l = update_directory me directory (
    if d.station_id == me
    then l
    else change_or_add d.station_id (λ s. record s { display_name = d.display_name }) l)

-- `active[ad.station_id] = (ad.selling, ad.seeking)`: the place of the first, the value of the last
pub set_active : Advertisement → List Advertisement → List Advertisement
set_active ad [] = ad ∷ []
set_active ad (b ∷ active) =
    let rest = set_active ad active in
    if b.station_id == ad.station_id then ad ∷ active else b ∷ rest

-- The first loop of `_update_advertisements`.
pub active_ads : ℕ → ℕ → List Advertisement → List Advertisement → List Advertisement
unfolding set_active
active_ads me tick [] active = active
active_ads me tick (ad ∷ ads) active = active_ads me tick ads (
    if ad.station_id == me || not (is_active ad.status) || ad_is_expired_at ad tick
    then active
    else set_active ad active)

-- `snapshot.tick > stats.last_ad_tick`
abbrev pub is_new_tick : ℕ → Option ℕ → Bool
is_new_tick tick none = true
is_new_tick tick (some last) = ltb last tick

-- The body of the second loop of `_update_advertisements`.
abbrev pub hear : ℕ → Advertisement → CounterpartyStats → CounterpartyStats
hear tick ad s = record s {
  selling = ad.selling;
  seeking = ad.seeking;
  seeking_streak = λ r.
      if ad.seeking r
      then (if is_new_tick tick s.last_ad_tick then s.seeking_streak r + 1 else s.seeking_streak r)
      else 0;
  last_ad_tick = some tick;
  ever_active = true;
}

pub hear_each : ℕ → List Advertisement → List CounterpartyStats → List CounterpartyStats
unfolding change_or_add
hear_each tick [] l = l
hear_each tick (ad ∷ active) l =
    hear_each tick active (change_or_add ad.station_id (hear tick ad) l)

-- The last loop of `_update_advertisements`, for one station.
abbrev pub silence : List Advertisement → CounterpartyStats → CounterpartyStats
silence active s =
    if any (λ ad. ad.station_id == s.station_id) active
    then s
    else record s { selling = λ r. false; seeking = λ r. false; seeking_streak = λ r. 0 }

pub update_advertisements : Snapshot → List CounterpartyStats → List CounterpartyStats
unfolding active_ads hear_each
update_advertisements snap l =
    let active = active_ads snap.self_station_id snap.tick snap.advertisements [] in
    map (silence active) (hear_each snap.tick active l)
