-- ===== src/Sim/Economy/Stations.antt =====
-- The dictionary of stations (bazaar_sim/economy.py) under a write to one of them.
use spaceport_bazzar_client.Base.{
  if◌then◌else◌, ◌==◌, nat_eq, Bool-cases, Option-cases, ◌>>=◌, sum_by, ℕ, ◌+◌, ◌≡◌, ◌≢◌, inl, inr,
  Option, none, some, List, [], ◌∷◌, arith,
}
use spaceport_bazzar_client.Domain.Bundle.{resource_eq}
use spaceport_bazzar_client.Sim.Station.{SimStation}
use spaceport_bazzar_client.Sim.Economy.{station_of, try_station}

-- A change of a station that keeps its id.
abbrev pub KeepsId : (SimStation → Option SimStation) → Type 0
KeepsId f = (s : SimStation) (s' : SimStation) → f s ≡ some s' → s'.station_id ≡ s.station_id

-- What a write to the station `sid` does to what is found under `x`.
abbrev pub changed_at :
    ℕ → (SimStation → Option SimStation) → ℕ → Option SimStation → Option SimStation
changed_at sid f x found = if x == sid then found >>= f else found

module _ (sid : ℕ) (f : SimStation → Option SimStation) where
  pub station_of-try_station :
      (x : ℕ) (l : List SimStation) {l' : List SimStation}
      → KeepsId f
      → try_station sid f l ≡ some l'
      → station_of x l' ≡ changed_at sid f x (station_of x l)
  unfolding try_station
  station_of-try_station x [] k e = cc
  station_of-try_station x (s ∷ rest) k e = elim (Option-cases (f s)) [
    | inl fails ↦ elim (Option-cases (try_station sid f rest)) [
      | inl lost ↦ ground arith
      | inr (rest', e') ↦ ground (arith, station_of-try_station x rest k e')
    ]
    | inr (s', done) ↦ elim (Option-cases (try_station sid f rest)) [
      | inl lost ↦ ground (arith, k s s' done)
      | inr (rest', e') ↦ ground (arith, k s s' done, station_of-try_station x rest k e')
    ]
  ]

  -- A write raises no `KeyError` where the station is there and the change itself goes through.
  pub try_station-total :
      (l : List SimStation) {s s' : SimStation}
      → station_of sid l ≡ some s
      → f s ≡ some s'
      → (l' : List SimStation) × (try_station sid f l ≡ some l')
  unfolding try_station
  try_station-total [] e h = cc
  try_station-total (t ∷ rest) {s} {s'} e h = elim (Bool-cases (t.station_id == sid)) [
    | inl here ↦ (s' ∷ rest, ground arith)
    | inr later ↦
        let (rest', e') = try_station-total rest {s = s} {s' = s'} (ground arith) h in
        (t ∷ rest', rw (later, e'))
  ]

  -- A sum over all stations moves by what the changed station moves by.
  pub sum_by-try_station :
      (g : SimStation → ℕ) (a b : ℕ) (l : List SimStation) {l' : List SimStation}
      → ((s : SimStation) (s' : SimStation) → f s ≡ some s' → g s' + a ≡ g s + b)
      → try_station sid f l ≡ some l'
      → sum_by g l' + a ≡ sum_by g l + b
  unfolding try_station
  sum_by-try_station g a b [] k e = cc
  sum_by-try_station g a b (s ∷ rest) k e = elim (Option-cases (f s)) [
    | inl fails ↦ elim (Option-cases (try_station sid f rest)) [
      | inl lost ↦ ground arith
      | inr (rest', e') ↦ ground (arith, sum_by-try_station g a b rest k e')
    ]
    | inr (s', done) ↦ elim (Option-cases (try_station sid f rest)) [
      | inl lost ↦ ground (arith, k s s' done)
      | inr (rest', e') ↦ ground (arith, k s s' done, sum_by-try_station g a b rest k e')
    ]
  ]

  pub try_station_known :
      (x : ℕ) (l : List SimStation) {l' : List SimStation}
      → KeepsId f
      → try_station sid f l ≡ some l'
      → station_of x l ≢ none
      → station_of x l' ≢ none
  unfolding try_station
  try_station_known x [] k e h = cc
  try_station_known x (s ∷ rest) k e h = elim (Option-cases (f s)) [
    | inl fails ↦ elim (Option-cases (try_station sid f rest)) [
      | inl lost ↦ ground arith
      | inr (rest', e') ↦ ground (arith, try_station_known x rest k e')
    ]
    | inr (s', done) ↦ elim (Option-cases (try_station sid f rest)) [
      | inl lost ↦ ground (arith, k s s' done)
      | inr (rest', e') ↦ ground (arith, k s s' done, try_station_known x rest k e')
    ]
  ]
