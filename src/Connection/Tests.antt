-- ===== src/Connection/Tests.antt =====
-- One handshake, one tick's budget and one request (bazaar_client/connection/).
pub mod Session
use spaceport_bazzar_client.Base.{nat_eq, ℕ, ◌≤◌, ◌≡◌, refl, true, none, some, [], ◌∷◌, ◌++◌, arith}
use spaceport_bazzar_client.Domain.Bundle.{resource_eq}
use spaceport_bazzar_client.Domain.Types.{Phase, offer, object_eq}
use spaceport_bazzar_client.Connection.Lifecycle.{SessionState, Directive, new_lifecycle}
use spaceport_bazzar_client.Connection.Lifecycle.Handshake.{
  Confirms, on_event_activates, declarations, on_events_declare_once, Confirmation, on_events_gate,
}
use spaceport_bazzar_client.Connection.Requests.{
  RequestTracker, new_requests, register, is_exact_retry,
}
use spaceport_bazzar_client.Connection.Requests.Retry.{register_keeps_content}
use spaceport_bazzar_client.Connection.Throttle.{new_throttle, update_limit, remaining, block_until}
use spaceport_bazzar_client.Connection.Throttle.Budget.{block_until_holds}
use spaceport_bazzar_client.Connection.Tests.Session.{
  first_events, confirmation, waiting_for_ack, opened, first_connection, handshake, confirming,
  may_trade,
}

on_events_gate_example :
    Confirmation (first_events ++ confirmation ∷ []) first_connection
    × (opened.phase ≡ some Phase.running)
on_events_gate_example =
    on_events_gate (first_events ++ confirmation ∷ []) new_lifecycle opened
      (Directive.send_ready 7 1 ∷ []) handshake may_trade

on_events_declare_once_example : declarations (Directive.send_ready 7 1 ∷ []) ≤ 1
on_events_declare_once_example =
    on_events_declare_once (first_events ++ confirmation ∷ []) new_lifecycle opened
      (Directive.send_ready 7 1 ∷ []) handshake

on_event_activates_example :
    (waiting_for_ack.state ≡ SessionState.awaiting_readiness)
    × Confirms confirmation waiting_for_ack
on_event_activates_example =
    on_event_activates confirmation waiting_for_ack opened none confirming (λ e. cc) refl

block_until_holds_example :
    (remaining 5 (update_limit 9 (block_until (some 3) (block_until (some 6) (new_throttle 4))))).0
    ≡ 0
block_until_holds_example = block_until_holds 6 (some 3) 9 5 (new_throttle 4) (omega arith)

-- Request 1 with content 42.
abbrev asked : RequestTracker
asked = record {
  sent = (1, record { request_id = 1; fingerprint = 42; kind = "offer"; sent_tick = 3 }) ∷ [];
  open_ids = 1 ∷ [];
}

abbrev asked_again : RequestTracker
asked_again = record {
  sent = (1, record { request_id = 1; fingerprint = 42; kind = "offer"; sent_tick = 4 }) ∷ [];
  open_ids = 1 ∷ [];
}

asking : register 1 42 "offer" 3 new_requests ≡ some asked
unfolding register
asking = refl

asking_again : register 1 42 "offer" 4 asked ≡ some asked_again
unfolding register
asking_again = refl

asked_for_this : is_exact_retry 1 42 asked ≡ true
unfolding is_exact_retry
asked_for_this = refl

register_keeps_content_example : is_exact_retry 1 42 asked_again ≡ true
register_keeps_content_example =
    register_keeps_content 1 42 "offer" 4 asked asked_again 1 42 asked_for_this asking_again

abbrev asked_fingerprint : ℕ
asked_fingerprint = 42

abbrev asked_id : ℕ
asked_id = 1
