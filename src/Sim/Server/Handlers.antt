-- ===== src/Sim/Server/Handlers.antt =====
-- The handlers of `BazaarServer` (bazaar_sim/server.py).
use spaceport_bazzar_client.Base.{
  ltb, leb, if◌then◌else◌, ◌==◌, nat_eq, ◌>>=◌, length, keep_if, ℕ, zero, suc, ◌+◌, String, Bool,
  true, false, not, ◌&&◌, Option, none, some,
}
use spaceport_bazzar_client.Domain.Types.{Phase, ResultCode, ControlCode, object_eq, ServerEvent}
use spaceport_bazzar_client.Execution.Actions.{Action}
use spaceport_bazzar_client.Sim.Economy.{
  CommandOutcome, refused, is_ok, Economy, execute, advance_tick, is_finished, end_run,
  apply_production,
}
use spaceport_bazzar_client.Sim.Server.State.{
  Seat, Server, Body, ClientCommand, same_phase, seat_of, put_seat, records_of, record_of,
  add_record, send, send_protocol_error, result_for, send_state, send_each, broadcast,
}

-- What a new command comes to, before it is answered: the economy and the outcome.
unfoldable pub carry_out : ℕ → Action → Server → Option (CommandOutcome × Economy)
carry_out sid action sv =
    if same_phase sv.phase Phase.running
    then (execute sid action sv.economy >>= λ (done : CommandOutcome × Economy). some (
      done.0,
      if is_ok done.0.code
          then record done.1 { world_version = done.1.world_version + 1 }
          else done.1,
    ))
    else some (refused ResultCode.run_not_running, sv.economy)

-- A confirmed readiness: `_maybe_start` asks for the task of `start_run`.
abbrev pub maybe_start : Server → Server
maybe_start sv =
    if same_phase sv.phase Phase.ready
      && ltb 0 sv.start_when
      && leb sv.start_when (length (keep_if (λ (s : Seat). s.ready) sv.seats))
    then record sv { start_scheduled = true }
    else sv

-- `seat.ready = bool(message.ready)`, and the acknowledgement
abbrev pub readied : ℕ → Seat → Bool → Option ℕ → Server → Server
readied sid seat flag sequence sv =
    send sid
      (ServerEvent.readiness (record {
        run_id = sv.economy.run_id;
        ready = flag;
        snapshot_sequence = elim sequence [ none ↦ 0 | some n ↦ n ];
      }))
      (record sv { seats = put_seat (record seat { ready = flag }) sv.seats })

-- `message.request_id`
abbrev request_of : Body → Option ℕ
request_of (Body.command id action fingerprint) = some id
request_of _ = none

-- A new connection: the one that stands is told that it is fenced off.
abbrev pub seat_newcomer : ℕ → Server → Server
seat_newcomer sid sv =
    let fenced : Server = elim (seat_of sid sv.seats) [
      | none ↦ sv
      | some seat ↦ send_protocol_error sid ControlCode.session_fenced none true sv
    ] in
    record fenced {
      seats = put_seat (record { station_id = sid; sequence = 0; ready = false }) fenced.seats;
    }

-- The run begins.
abbrev pub begun : Server → Server
begun sv = record sv {
  phase = Phase.running;
  economy = record sv.economy { world_version = sv.economy.world_version + 1 };
}

-- The economy after a tick of the server.
unfoldable pub ticked_world : Server → Option Economy
ticked_world sv = do
  after ← advance_tick sv.economy
  some (elim sv.production [ none ↦ after | some produce ↦ apply_production produce after ])

module _ (names : ℕ → String) where
  -- `_command`
  unfoldable pub handle_command : ℕ → ℕ → Action → ℕ → Server → Option Server
  unfolding carry_out send_each
  handle_command sid id action fingerprint sv = do
    stored ← records_of sid sv.results
    elim (record_of id stored) [
      | some previous ↦
          if previous.fingerprint == fingerprint
          then send_state names sid (send sid (ServerEvent.command_result previous.result) sv)
          else some (
              send sid
                (ServerEvent.command_result
                  (result_for id ResultCode.request_id_conflict none none sv.economy))
                sv)
      | none ↦
          if leb sv.economy.rules.max_request_records_per_station (length stored)
          then some
              (send_protocol_error sid ControlCode.request_capacity_exceeded (some id) false sv)
          else (carry_out sid action sv >>= λ (done : CommandOutcome × Economy).
              let result =
                result_for id done.0.code done.0.object_id done.0.transaction_id done.1 in
              broadcast names (
                send sid (ServerEvent.command_result result) (record sv {
                  economy = done.1;
                  results =
                      add_record sid id (record { fingerprint = fingerprint; result = result })
                        sv.results;
                })))
    ]

  -- The part of `_on_message` that depends on the kind of the message.
  unfoldable pub on_body : ℕ → Body → Server → Option (Server × Bool)
  unfolding handle_command
  on_body sid (Body.declare flag sequence) sv = do
    seat ← seat_of sid sv.seats
    some (maybe_start (readied sid seat flag sequence sv), true)
  on_body sid Body.resync sv = send_state names sid sv >>= λ after. some (after, true)
  on_body sid (Body.command id action fingerprint) sv = seat_of sid sv.seats >>= λ (seat : Seat).
      if not seat.ready
      then some (send_protocol_error sid ControlCode.bad_message (some id) false sv, true)
      else (handle_command sid id action fingerprint sv >>= λ after. some (after, true))

  -- `_on_message` for a message that is decoded: the server, and whether the connection goes on
  unfoldable pub on_message : ℕ → ℕ → ClientCommand → Server → Option (Server × Bool)
  unfolding on_body
  on_message version sid message sv =
      if not (message.protocol_version == version)
      then some (
        send_protocol_error sid ControlCode.unsupported_version (request_of message.body) true sv,
        false,
      )
      else if not (message.run_id == sv.economy.run_id)
      then some (
        send_protocol_error sid ControlCode.run_mismatch (request_of message.body) true sv,
        false,
      )
      else on_body sid message.body sv

  -- `_handle`, up to its loop: a new connection replaces the one that stands
  unfoldable pub connect : ℕ → Server → Option Server
  unfolding send_state
  connect sid sv = send_state names sid (seat_newcomer sid sv)

  -- `_handle`, after its loop, if the seat still stands
  unfoldable pub disconnect : ℕ → Server → Server
  disconnect sid sv = record sv {
    seats = keep_if (λ (s : Seat). not (s.station_id == sid)) sv.seats;
  }

  unfoldable pub start_run : Server → Option Server
  unfolding send_each
  start_run sv =
      if not (same_phase sv.phase Phase.ready) then some sv else broadcast names (begun sv)

  -- `advance`
  unfoldable pub advance : Server → Option Server
  unfolding send_each ticked_world
  advance sv =
      if not (same_phase sv.phase Phase.running)
      then some sv
      else (ticked_world sv >>= λ (world : Economy).
          if is_finished world
          then broadcast names (record sv { economy = end_run world; phase = Phase.finished })
          else broadcast names (record sv { economy = world }))

  -- `_tick_forever` for at most `n` rounds
  unfoldable pub tick_for : ℕ → Server → Option Server
  unfolding advance
  tick_for zero sv = some sv
  tick_for (suc n) sv = elim (same_phase sv.phase Phase.running) [
    | false ↦ some sv
    | true ↦ advance sv >>= λ after. tick_for n after
  ]
