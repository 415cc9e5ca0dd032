-- ===== src/World/Counterparties/InPlay.antt =====
-- The planets that the client may deal with (bazaar_client/world/counterparties.py).
use spaceport_bazzar_client.Base.{
  ◌==◌, nat_eq, any, All, All-both, ℕ, ◌≡◌, true, List, [], ◌∷◌, arith,
}
use spaceport_bazzar_client.Domain.Types.{object_eq}
use spaceport_bazzar_client.World.Counterparties.{
  CounterpartyStats, CounterpartyModel, stations_in_play,
}

-- The model knows the planet and has not seen it fail.
abbrev pub IsInPlay : CounterpartyModel → ℕ → Type 0
IsInPlay m sid = any (λ s. s.station_id == sid) (stations_in_play m) ≡ true

each_listed :
    (l : List CounterpartyStats) → All (λ s. any (λ t. t.station_id == s.station_id) l ≡ true) l
each_listed [] = tt
each_listed (s ∷ l) = (
  ground arith,
  All-both (λ t. any (λ u. u.station_id == t.station_id) l ≡ true)
      (λ t. any (λ u. u.station_id == t.station_id) l ≡ true)
      (λ t. any (λ u. u.station_id == t.station_id) (s ∷ l) ≡ true) l
      (λ t listed _. ground (arith, listed)) (each_listed l) (each_listed l),
)

pub stations_in_play-IsInPlay :
    (m : CounterpartyModel) → All (λ s. IsInPlay m s.station_id) (stations_in_play m)
stations_in_play-IsInPlay m = each_listed (stations_in_play m)
