-- ===== src/Connection/Tests/Session.antt =====
-- The events of one session (bazaar_client/connection/).
use spaceport_bazzar_client.Base.{
  nat_eq, ℕ, ◌≡◌, refl, true, false, none, some, List, [], ◌∷◌, ◌++◌,
}
use spaceport_bazzar_client.Domain.Bundle.{water, food, components, resource_eq, zero_bundle}
use spaceport_bazzar_client.Domain.Types.{
  Phase, object_eq, Rules, StationObservation, Snapshot, ServerEvent,
}
use spaceport_bazzar_client.Connection.Lifecycle.{
  SessionState, Directive, Lifecycle, new_lifecycle, can_send_trading_commands, on_connected,
  on_event,
}
use spaceport_bazzar_client.Connection.Lifecycle.Handshake.{on_events}

abbrev pub rules_of_run : Rules
rules_of_run = record {
  rules_version = "v1";
  duration_ticks = 120;
  tick_duration_ms = 5000;
  resource_order = water ∷ food ∷ components ∷ [];
  max_health = 100;
  shortage_damage_per_unit = 5;
  recovery_per_fully_supplied_tick = 5;
  max_publication_ttl_ticks = 10;
  max_offer_ttl_ticks = 10;
  new_commands_per_station_per_tick = 4;
  max_request_records_per_station = 1000;
  max_open_outgoing_offers = 6;
  max_command_bytes = 16384;
}

abbrev pub own_planet : StationObservation
own_planet = record {
  station_id = 1;
  inventory = zero_bundle;
  health = 100;
  failed_once = false;
  first_failure_tick = none;
  last_production = zero_bundle;
  last_unmet_upkeep = zero_bundle;
  fully_supplied_ticks = 0;
  shortage_ticks = 0;
  current_shortage_streak = 0;
  longest_shortage_streak = 0;
  produced_total = zero_bundle;
  consumed_total = zero_bundle;
  unmet_total = zero_bundle;
  imported_total = zero_bundle;
  exported_total = zero_bundle;
  upkeep_per_tick = zero_bundle;
  specialty = water;
}

abbrev pub seen : ℕ → Snapshot
seen sequence = record {
  run_id = 7;
  snapshot_sequence = sequence;
  world_version = 1;
  tick = 0;
  phase = Phase.running;
  self_station_id = 1;
  rules = rules_of_run;
  directory = [];
  me = own_planet;
  offers = [];
  advertisements = [];
  transactions = [];
  request_results = [];
  outcome = none;
}

-- The first snapshot, a repeat of it, a newer one, and the confirmation of the first.
abbrev pub first_events : List ServerEvent
first_events =
    ServerEvent.snapshot (seen 1)
    ∷ ServerEvent.snapshot (seen 1)
    ∷ ServerEvent.snapshot (seen 2)
    ∷ []

abbrev pub confirmation : ServerEvent
confirmation = ServerEvent.readiness (record { run_id = 7; ready = true; snapshot_sequence = 1 })

abbrev pub waiting_for_ack : Lifecycle
waiting_for_ack = record {
  state = SessionState.awaiting_readiness;
  run_id = some 7;
  phase = some Phase.running;
  ready_sequence = some 1;
  last_snapshot_sequence = 2;
}

abbrev pub opened : Lifecycle
opened = record waiting_for_ack { state = SessionState.active }

abbrev pub first_connection : Lifecycle
first_connection = on_connected new_lifecycle

pub handshake :
    on_events (first_events ++ confirmation ∷ []) first_connection
    ≡ some (Directive.send_ready 7 1 ∷ [], opened)
unfolding on_events on_event on_connected
handshake = refl

pub confirming : on_event confirmation waiting_for_ack ≡ some (none, opened)
unfolding on_event
confirming = refl

abbrev pub connected : Lifecycle
connected = record new_lifecycle { state = SessionState.awaiting_first_state }

abbrev pub introduced : Lifecycle
introduced = record waiting_for_ack { last_snapshot_sequence = 1 }

pub introducing :
    on_event (ServerEvent.snapshot (seen 1)) connected
    ≡ some (some (Directive.send_ready 7 1), introduced)
unfolding on_event
introducing = refl

pub updating : on_event (ServerEvent.snapshot (seen 2)) introduced ≡ some (none, waiting_for_ack)
unfolding on_event
updating = refl

pub may_trade : can_send_trading_commands opened ≡ true
unfolding can_send_trading_commands
may_trade = refl
