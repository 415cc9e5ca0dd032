-- ===== src/Sim/World/Whole.antt =====
-- `run_world` of bazaar_sim/world.py never fails.
use spaceport_bazzar_client.Base.{
  ◌>>=◌, All, ℕ, ◌+◌, ◌≤◌, ◌<◌, String, ◌≡◌, refl, ◌⊎◌, inl, inr, Option, some, List, [], ◌∷◌,
  arith,
}
use spaceport_bazzar_client.Domain.Types.{Rules, Snapshot}
use spaceport_bazzar_client.Execution.Actions.{Action}
use spaceport_bazzar_client.Sim.Station.{SimStation, new_station, IsSound}
use spaceport_bazzar_client.Sim.Economy.{put_station, put_stations, new_economy}
use spaceport_bazzar_client.Sim.Economy.Invariant.{IsKnown, Unique, IsValid}
use spaceport_bazzar_client.Sim.Economy.Invariant.Start.{
  stock_of, new_station-IsSound, new_economy-IsValid,
}
use spaceport_bazzar_client.Sim.World.{
  specialty_of, roster_stations, roster_of, stock_for, WorldState, run_world,
}
use spaceport_bazzar_client.Sim.World.Survival.{run_ticks-Goes}

-- A stock for each player.
abbrev pub HasStock {ℓ} : {P : Type ℓ} → List P → List ℕ → Type 0
HasStock [] stock = Unit
HasStock (p ∷ players) [] = ⊥
HasStock (p ∷ players) (n ∷ stock) = HasStock players stock

put_station-IsKnown :
    (x : ℕ) (s : SimStation) (known : List SimStation)
    → ((s.station_id ≡ x) ⊎ IsKnown x known)
    → IsKnown x (put_station s known)
unfolding put_station
put_station-IsKnown x s [] h = ground arith
put_station-IsKnown x s (t ∷ known) h = ground (arith, put_station-IsKnown x s known)

put_stations-keeps :
    (x : ℕ) (l known : List SimStation) → IsKnown x known → IsKnown x (put_stations l known)
unfolding put_stations
put_stations-keeps x [] known k = k
put_stations-keeps x (s ∷ l) known k =
    put_stations-keeps x l (put_station s known) (put_station-IsKnown x s known (inr k))

put_stations-IsKnown :
    (l known : List SimStation) → All (λ s. IsKnown s.station_id (put_stations l known)) l
unfolding put_stations
put_stations-IsKnown [] known = tt
put_stations-IsKnown (s ∷ l) known = (
  put_stations-keeps s.station_id l (put_station s known)
      (put_station-IsKnown s.station_id s known (inl refl)),
  put_stations-IsKnown l (put_station s known),
)

-- The stations are made, sound, and those of the roster.
abbrev Made {ℓ} : {P : Type ℓ} → Rules → ℕ → List P → List SimStation → Type 1
Made rules i players stations =
    All (λ s. IsSound rules s.inventory s) stations
    × ((Q : ℕ → Type 0)
        → All (λ (s : SimStation). Q s.station_id) stations
        → All (λ s. Q s.0) (roster_of i players))

roster_stations-Made {ℓ} :
    {P : Type ℓ} (rules : Rules) (i : ℕ) (players : List P) (stock : List ℕ)
    → 100 ≤ rules.max_health
    → HasStock players stock
    → (stations : List SimStation) × (roster_stations i players stock ≡ some stations)
      × Made rules i players stations
unfolding roster_stations roster_of
roster_stations-Made rules i [] stock m h = ([], refl, (tt, λ Q k. tt))
roster_stations-Made rules i (p ∷ players) [] m h = elim h [ ]
roster_stations-Made rules i (p ∷ players) (n ∷ stock) m h =
    let (rest, run, (sound, mine)) = roster_stations-Made rules (i + 1) players stock m h in
    let first =
      new_station (i + 1) (specialty_of i) (record { water = n; food = n; components = n }) in
    (
      first ∷ rest,
      rw (roster_stations, run, ◌>>=◌) refl,
      (
        (
          new_station-IsSound rules (i + 1) (specialty_of i)
              (record { water = n; food = n; components = n }) m,
          sound,
        ),
        λ Q k. (k.0, mine Q k.1),
      ),
    )

new_economy-planets :
    (stations : List SimStation) (rules : Rules) (run_id : ℕ)
    → All (λ s. IsKnown s.station_id (new_economy stations rules run_id).stations) stations
unfolding new_economy
new_economy-planets stations rules run_id = put_stations-IsKnown stations []

new_economy-rules :
    (stations : List SimStation) (rules : Rules) (run_id : ℕ)
    → (new_economy stations rules run_id).rules ≡ rules
unfolding new_economy
new_economy-rules stations rules run_id = refl

-- A run of the whole world returns, whatever the players do, if they do not raise on a snapshot whose
-- offers have distinct ids, each has a stock, and the rules allow a health of 100: no command, tick
-- or snapshot raises, and the economy that is left is valid for the stocks that the planets began
-- with.
pub run_world-IsValid {ℓ} :
    {P : Type ℓ} (names : ℕ → String) (act : P → Snapshot → Option (List Action × P))
    (players : List P) (ticks : ℕ) (produce : ℕ → ℕ → ℕ) (stock : List ℕ) (rules : Rules)
    (run_id : ℕ)
    → ((p : P) (s : Snapshot) → Unique s.offers → (r : List Action × P) × (act p s ≡ some r))
    → HasStock players (stock_for players stock)
    → 100 ≤ rules.max_health
    → (stations : List SimStation) × (last : WorldState P) × (roster_stations 0 players
          (stock_for players stock)
        ≡ some stations)
      × (run_world names act players ticks produce stock rules run_id ≡ some last)
      × IsValid (stock_of (new_economy stations rules run_id).stations) last.economy
unfolding run_world
run_world-IsValid names act players ticks produce stock rules run_id acts stocked m =
    let (stations, made, (sound, mine)) =
      roster_stations-Made rules 0 players (stock_for players stock) m stocked in
    let e = new_economy stations rules run_id in
    let starts = stock_of e.stations in
    let planets : ℕ → Type 0 = λ x. IsKnown x e.stations in
    let healthy : 0 < e.rules.max_health =
      rw (new_economy-rules stations rules run_id) (omega (arith, m)) in
    let (last, run, (playable, still)) =
      run_ticks-Goes names act acts starts planets produce ticks 0
        (record { roster = roster_of 0 players; economy = e; failed_at = [] })
        (
          ((healthy, new_economy-IsValid stations rules run_id sound), λ x k. k),
          mine planets (new_economy-planets stations rules run_id),
        ) in
    (stations, last, made, rw (run_world, made, ◌>>=◌) run, playable.0.1)
