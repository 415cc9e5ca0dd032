-- ===== src/Sim/Server/State.antt =====
-- The state of `BazaarServer` (bazaar_sim/server.py), and what it sends.
use spaceport_bazzar_client.Base.{
  if◌then◌else◌, ◌==◌, nat_eq, ◌>>=◌, find?, ℕ, ◌+◌, String, Bool, true, false, Option, none, some,
  List, [], ◌∷◌, ◌++◌, map,
}
use spaceport_bazzar_client.Domain.Types.{
  Phase, ResultCode, ControlCode, ObjectId, object_eq, CommandResult, PlayerOutcome, ServerEvent,
}
use spaceport_bazzar_client.Execution.Actions.{Action}
use spaceport_bazzar_client.Sim.Economy.{
  is_ok, Economy, close, apply_production, observation_for, outcome_for,
}

-- A live connection of a planet.
pub record Seat : Type 0 where
  pub station_id : ℕ
  pub sequence : ℕ
  pub ready : Bool

pub record StoredResult : Type 0 where
  pub fingerprint : ℕ
  pub result : CommandResult

-- `dict[str, StoredResult]`, in insertion order
abbrev pub Records : Type 0
Records = List (ℕ × StoredResult)

pub record Server : Type 0 where
  pub economy : Economy
  pub start_when : ℕ
  pub production : Option (ℕ → ℕ → ℕ)
  pub phase : Phase
  pub seats : List Seat
  pub results : List (ℕ × Records)
  -- the task of `start_run` has been made
  pub start_scheduled : Bool
  pub sent : List (ℕ × ServerEvent)

-- What the messages of `ClientCommand` hold.
pub data Body : Type 0 where
  declare : Bool → Option ℕ → Body
  resync : Body
  command : ℕ → Action → ℕ → Body

pub record ClientCommand : Type 0 where
  pub protocol_version : ℕ
  pub run_id : ℕ
  pub body : Body

-- `phase is Phase.X`
abbrev pub same_phase : Phase → Phase → Bool
same_phase Phase.ready Phase.ready = true
same_phase Phase.running Phase.running = true
same_phase Phase.paused Phase.paused = true
same_phase Phase.finished Phase.finished = true
same_phase Phase.aborted Phase.aborted = true
same_phase _ _ = false

-- `self.seats.get(sid)`
abbrev pub seat_of : ℕ → List Seat → Option Seat
seat_of sid = find? (λ s. s.station_id == sid)

-- `self.seats[sid] = seat`
unfoldable pub put_seat : Seat → List Seat → List Seat
put_seat seat [] = seat ∷ []
put_seat seat (s ∷ rest) =
    let kept = put_seat seat rest in
    if s.station_id == seat.station_id then seat ∷ rest else s ∷ kept

-- `self.results[sid]`
unfoldable pub records_of : ℕ → List (ℕ × Records) → Option Records
records_of sid [] = none
records_of sid ((j, records) ∷ rest) = if j == sid then some records else records_of sid rest

-- `stored.get(request_id)`
unfoldable pub record_of : ℕ → Records → Option StoredResult
record_of id [] = none
record_of id ((j, stored) ∷ rest) = if j == id then some stored else record_of id rest

-- `stored[request_id] = ...`, for an id that is new
unfoldable pub add_record : ℕ → ℕ → StoredResult → List (ℕ × Records) → List (ℕ × Records)
add_record sid id stored [] = []
add_record sid id stored ((j, records) ∷ rest) =
    if j == sid
    then (j, records ++ (id, stored) ∷ []) ∷ rest
    else (j, records) ∷ add_record sid id stored rest

-- `_send`
abbrev pub send : ℕ → ServerEvent → Server → Server
send sid event sv = record sv { sent = sv.sent ++ (sid, event) ∷ [] }

-- `_protocol_error`, whose `close` ends the connection
abbrev pub send_protocol_error : ℕ → ControlCode → Option ℕ → Bool → Server → Server
send_protocol_error sid code id close sv =
    send sid
      (ServerEvent.protocol_error (record {
        run_id = some sv.economy.run_id;
        request_id = id;
        code = code;
        close_session = close;
      }))
      sv

abbrev is_rate_limited : ResultCode → Bool
is_rate_limited ResultCode.rate_limited = true
is_rate_limited _ = false

-- `_result`
abbrev pub result_for : ℕ → ResultCode → Option ObjectId → Option ObjectId → Economy → CommandResult
result_for id code object_id transaction_id e = record {
  request_id = id;
  is_ok = is_ok code;
  code = code;
  processed_tick = e.tick;
  processed_version = e.world_version;
  object_id = object_id;
  transaction_id = transaction_id;
  retry_after_tick = if is_rate_limited code then some (e.tick + 1) else none;
}

-- `__init__`, with the production of the first tick
unfoldable pub new_server : Economy → ℕ → Option (ℕ → ℕ → ℕ) → Server
new_server e start_when production = record {
  economy = elim production [ none ↦ e | some produce ↦ apply_production produce e ];
  start_when = start_when;
  production = production;
  phase = Phase.ready;
  seats = [];
  results = map (λ s. (s.station_id, [])) e.stations;
  start_scheduled = false;
  sent = [];
}

-- The outcome in a snapshot.
abbrev pub outcome_told : ℕ → Server → Option (Option PlayerOutcome)
outcome_told sid sv =
    if same_phase sv.phase Phase.finished
    then (outcome_for sid false sv.economy >>= λ o. some (some o))
    else some none

module _ (names : ℕ → String) where
  -- `snapshot_for` and `_send_state`
  unfoldable pub send_state : ℕ → Server → Option Server
  send_state sid sv = do
    seat ← seat_of sid sv.seats
    records ← records_of sid sv.results
    let counted_seat : Seat = record seat { sequence = seat.sequence + 1 }
    outcome ← outcome_told sid sv
    snap ←
        observation_for names sid counted_seat.sequence sv.phase (map (λ r. r.1.result) records)
          outcome sv.economy
    some (
        send sid (ServerEvent.snapshot snap) (record sv { seats = put_seat counted_seat sv.seats }))

  -- The loop of `broadcast`, over a copy of the seats.
  unfoldable pub send_each : List Seat → Server → Option Server
  unfolding send_state
  send_each [] sv = some sv
  send_each (s ∷ seats) sv = do after ← send_state s.station_id sv; send_each seats after

  abbrev pub broadcast : Server → Option Server
  broadcast sv = send_each sv.seats sv
