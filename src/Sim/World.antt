-- ===== src/Sim/World.antt =====
-- bazaar_sim/world.py: production schedules, and whole-world runs of players on one economy. A
-- player is its state, and `act` gives its actions and its next state; a station's name for people
-- is given by `names`. `none` is a raised exception.
pub mod Balance
pub mod Entries
pub mod Cycle
pub mod Survival
pub mod Score
pub mod Whole
use spaceport_bazzar_client.Base.{
  ltb, if◌then◌else◌, ◌==◌, nat_eq, ◌>>=◌, length, keep_if, any, get_or, ℕ, zero, suc, ◌+◌, ◌-◌,
  ◌*◌, ◌/◌, ◌%◌, String, not, ◌&&◌, Option, none, some, List, [], ◌∷◌, ◌++◌,
}
use spaceport_bazzar_client.Base.Float.{Ratio, float, fl_mul}
use spaceport_bazzar_client.Domain.Bundle.{Resource, resource_eq, resources}
use spaceport_bazzar_client.Domain.Types.{Phase, object_eq, Rules, Snapshot}
use spaceport_bazzar_client.Execution.Actions.{Action}
use spaceport_bazzar_client.Sim.Station.{SimStation, new_station}
use spaceport_bazzar_client.Sim.Economy.{
  Economy, station_of, apply, advance_tick, set_production, new_economy, observe_next,
}

abbrev pub phase_ticks : ℕ
phase_ticks = 12

-- `PHASES`
abbrev pub phases : List ℕ
phases = 2 ∷ 5 ∷ 6 ∷ []

unfoldable pub run_two_production : ℕ → ℕ → ℕ → ℕ
run_two_production phase_offset tick i =
    get_or phases ((tick / phase_ticks + i + phase_offset) % 3) 0

-- `list(Resource)[index % 3]`
abbrev pub specialty_of : ℕ → Resource
specialty_of index = get_or resources (index % 3) Resource.water

-- `range(start, start + count)`
abbrev pub range_from : ℕ → ℕ → List ℕ
range_from start zero = []
range_from start (suc count) = start ∷ range_from (start + 1) count

-- `producers`
abbrev pub producers : ℕ → Resource → List ℕ
producers planets r = keep_if (λ i. specialty_of i == r) (range_from 0 planets)

-- The loop that fills `base` for the producers of one resource, from a rank on.
unfoldable pub shares : ℕ → ℕ → ℕ → List ℕ → List (ℕ × ℕ)
shares share extra rank [] = []
shares share extra rank (i ∷ rest) =
    (i, share + (if ltb rank extra then 1 else 0)) ∷ shares share extra (rank + 1) rest

-- `base` for the producers of one resource
unfoldable pub base_for : ℕ → ℕ → Resource → List (ℕ × ℕ)
unfolding shares
base_for planets upkeep r =
    let makers = producers planets r in
    shares (planets * upkeep / length makers) (planets * upkeep % length makers) 0 makers

-- `int(k * base * surplus)`, on doubles
abbrev pub scaled : ℕ → ℕ → Ratio → ℕ
scaled k base surplus = let x = fl_mul (float (k * base)) surplus in x.num / x.den

-- `base[i]`
abbrev pub entry_of : ℕ → List (ℕ × ℕ) → Option ℕ
entry_of i [] = none
entry_of i ((j, n) ∷ rest) = if j == i then some n else entry_of i rest

-- What `swing` adds and takes in a phase.
abbrev pub swing_up : ℕ → ℕ → ℕ
swing_up variation phase = get_or (0 ∷ 0 ∷ variation ∷ []) phase 0

abbrev pub swing_down : ℕ → ℕ → ℕ
swing_down variation phase = get_or (variation ∷ 0 ∷ 0 ∷ []) phase 0

-- `produce`, whose result is at least 0: `-` stops there
unfoldable pub balanced_output : List (ℕ × ℕ) → ℕ → Ratio → ℕ → ℕ → Option ℕ
balanced_output base variation surplus tick i = do
  n ← entry_of i base
  let phase = (tick / phase_ticks + i) % 3
  some (
      n
      + scaled (tick + 1) n surplus
      + swing_up variation phase
      - (scaled tick n surplus + swing_down variation phase))

unfoldable pub balanced_production : ℕ → ℕ → ℕ → Ratio → Option (ℕ → ℕ → Option ℕ)
unfolding base_for balanced_output
balanced_production planets upkeep variation surplus =
    if ltb planets 3
    then none
    else some (
        balanced_output
          (base_for planets upkeep Resource.water
            ++ base_for planets upkeep Resource.food
            ++ base_for planets upkeep Resource.components)
          variation surplus)

-- `failed_at[sid] = tick` for each station that has failed and is not noted yet
unfoldable pub note_failures : ℕ → List SimStation → List (ℕ × ℕ) → List (ℕ × ℕ)
note_failures tick [] failed_at = failed_at
note_failures tick (s ∷ rest) failed_at = note_failures tick rest (
    if s.failed_once && not (any (λ (f : ℕ × ℕ). f.0 == s.station_id) failed_at)
    then failed_at ++ (s.station_id, tick) ∷ []
    else failed_at)

-- The stations of the roster, from an index on; an index that the stock has not is an `IndexError`.
unfoldable pub roster_stations {ℓ} : {P : Type ℓ} → ℕ → List P → List ℕ → Option (List SimStation)
roster_stations i [] stock = some []
roster_stations i (p ∷ players) [] = none
roster_stations i (p ∷ players) (n ∷ stock) = do
  rest ← roster_stations (i + 1) players stock
  some
      (new_station (i + 1) (specialty_of i) (record { water = n; food = n; components = n }) ∷ rest)

-- `{f"P{i + 1:02}": p for i, p in enumerate(players)}`
unfoldable pub roster_of {ℓ} : {P : Type ℓ} → ℕ → List P → List (ℕ × P)
roster_of i [] = []
roster_of i (p ∷ players) = (i + 1, p) ∷ roster_of (i + 1) players

-- `[30] * len(roster)`
unfoldable pub thirties {ℓ} : {P : Type ℓ} → List P → List ℕ
thirties [] = []
thirties (p ∷ players) = 30 ∷ thirties players

-- `starting_stock or [30] * len(roster)`
abbrev pub stock_for {ℓ} : {P : Type ℓ} → List P → List ℕ → List ℕ
stock_for players [] = thirties players
stock_for players (n ∷ stock) = n ∷ stock

-- What the loop of `run_world` changes.
pub record WorldState {ℓ} (P : Type ℓ) : Type ℓ where
  pub roster : List (ℕ × P)
  pub economy : Economy
  pub failed_at : List (ℕ × ℕ)

module _ {ℓ} {P : Type ℓ} (names : ℕ → String) (act : P → Snapshot → Option (List Action × P)) where
  -- `economy.apply(sid, player.act(economy.observation_for(sid)))`
  unfoldable pub act_once : ℕ → P → Economy → Option (P × Economy)
  act_once sid player e = do
    (snap, seen) ← observe_next names sid Phase.running [] none e
    (actions, later) ← act player snap
    after ← apply sid actions seen
    some (later, after)

  -- The loop over the roster.
  unfoldable pub play_each : List (ℕ × P) → Economy → Option (List (ℕ × P) × Economy)
  unfolding act_once
  play_each [] e = some ([], e)
  play_each ((sid, player) ∷ rest) e = do
    station ← station_of sid e.stations
    (later, after) ← if station.failed_once then some (player, e) else act_once sid player e
    (others, last) ← play_each rest after
    some ((sid, later) ∷ others, last)

  -- The body of the loop of `run_world`.
  unfoldable pub run_tick : (ℕ → ℕ → ℕ) → ℕ → WorldState P → Option (WorldState P)
  unfolding play_each note_failures
  run_tick produce tick w = do
    let set = record w.economy { stations = set_production (produce tick) 0 w.economy.stations }
    (later, played) ← play_each w.roster set
    after ← advance_tick played
    some (record {
      roster = later;
      economy = after;
      failed_at = note_failures after.tick after.stations w.failed_at;
    })

  -- `for tick in range(ticks)`, from a tick on
  unfoldable pub run_ticks : (ℕ → ℕ → ℕ) → ℕ → ℕ → WorldState P → Option (WorldState P)
  unfolding run_tick
  run_ticks produce zero tick w = some w
  run_ticks produce (suc n) tick w =
      run_tick produce tick w >>= λ after. run_ticks produce n (tick + 1) after

  -- `run_world`, with the schedule that its default stands for
  unfoldable pub run_world : List P → ℕ → (ℕ → ℕ → ℕ) → List ℕ → Rules → ℕ → Option (WorldState P)
  unfolding run_ticks roster_stations roster_of
  run_world players ticks produce stock rules run_id = do
    stations ← roster_stations 0 players (stock_for players stock)
    run_ticks produce ticks 0 (record {
      roster = roster_of 0 players;
      economy = new_economy stations rules run_id;
      failed_at = [];
    })
