-- ===== src/Sim/Tests/Service.antt =====
-- A server on the market of two planets (bazaar_sim/server.py).
use spaceport_bazzar_client.Base.{
  leb, length, ℕ, String, ◌≡◌, refl, true, false, Option, none, some, [], ◌∷◌, ◌++◌, arith,
}
use spaceport_bazzar_client.Domain.Bundle.{dominates, is_zero}
use spaceport_bazzar_client.Domain.Types.{Phase, Snapshot, ServerEvent}
use spaceport_bazzar_client.Sim.Economy.{
  CommandOutcome, Economy, precheck, dispatch, counted, execute, new_economy, observation_for,
}
use spaceport_bazzar_client.Sim.Server.{
  StoredResult, Server, put_seat, records_of, record_of, add_record, result_for, new_server,
  carry_out, handle_command, connect, tick_for,
}
use spaceport_bazzar_client.Sim.Server.Keeping.{IsServing}
use spaceport_bazzar_client.Sim.Server.Steps.{ServerStep, ServerReach, server_run-IsServing}
use spaceport_bazzar_client.Sim.Server.Retry.{handle_command_retry}
use spaceport_bazzar_client.Sim.Server.Finish.{IsOnCourse, tick_for_finishes}
use spaceport_bazzar_client.Sim.Tests.Market.{market, post, starts, market-IsValid}

abbrev names : ℕ → String
names sid = "planet"

abbrev server_or : Server → Option Server → Server
server_or sv none = sv
server_or _ (some sv) = sv

abbrev waiting : Server
waiting = new_server market 1 none

abbrev seated_one : Server
seated_one = server_or waiting (connect names 1 waiting)

-- Planet 1 is seated and ready, and the run goes on.
abbrev in_play : Server
in_play = record {
  economy = market;
  start_when = 1;
  production = some (λ tick i. 3);
  phase = Phase.running;
  seats = record { station_id = 1; sequence = 1; ready = true } ∷ [];
  results = (1, []) ∷ (2, []) ∷ [];
  start_scheduled = false;
  sent = [];
}

abbrev asked : Server
asked = server_or in_play (handle_command names 1 5 post 9 in_play)

abbrev asked_again : Server
asked_again = server_or asked (handle_command names 1 5 post 9 asked)

seating : connect names 1 waiting ≡ some seated_one
unfolding connect put_seat new_server records_of new_economy observation_for
seating = refl

asking : handle_command names 1 5 post 9 in_play ≡ some asked
unfolding handle_command records_of record_of new_economy execute precheck is_zero dominates
    dispatch add_record observation_for counted put_seat
asking = refl

asking_again : handle_command names 1 5 post 9 asked ≡ some asked_again
unfolding handle_command records_of record_of new_economy execute precheck is_zero dominates
    dispatch add_record observation_for counted put_seat
asking_again = refl

in_play-IsOnCourse : IsOnCourse in_play
unfolding records_of new_economy
in_play-IsOnCourse = record {
  running = refl;
  all_seated =
      (record { seated = ground arith; recorded = ground arith; listed = ground arith }, tt);
}

tick_for_finishes_example :
    (sv' : Server) × (tick_for names 120 in_play ≡ some sv') × (sv'.phase ≡ Phase.finished)
unfolding new_economy
tick_for_finishes_example =
    tick_for_finishes names 120 in_play in_play-IsOnCourse (omega arith) (omega arith)

known_one : records_of 1 in_play.results ≡ some []
unfolding records_of
known_one = refl

new_request : record_of 5 [] ≡ none
unfolding record_of
new_request = refl

room_for_it :
    leb in_play.economy.rules.max_request_records_per_station (length {A = ℕ × StoredResult} [])
    ≡ false
unfolding new_economy
room_for_it = refl

server_run-IsServing_example : IsServing starts seated_one
unfolding new_economy
server_run-IsServing_example =
    server_run-IsServing names 2 starts market 1 none (omega arith) market-IsValid
      (ServerReach.onward ServerReach.fresh (ServerStep.connected 1 seating))

handle_command_retry_example :
    (done : CommandOutcome × Economy) × (snap : Snapshot) × (carry_out 1 post in_play ≡ some done)
    × (asked_again.economy ≡ done.1)
    × (asked_again.results ≡ asked.results)
    × (asked_again.sent
        ≡ (asked.sent
            ++ (
              1,
              ServerEvent.command_result
                  (result_for 5 done.0.code done.0.object_id done.0.transaction_id done.1),
            )
              ∷ [])
          ++ (1, ServerEvent.snapshot snap) ∷ [])
handle_command_retry_example =
    handle_command_retry names 1 5 post post 9 [] in_play asked asked_again known_one new_request
      room_for_it asking asking_again
