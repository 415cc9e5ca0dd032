-- ===== src/Connection/Lifecycle.antt =====
-- `SessionLifecycle` of bazaar_client/connection/lifecycle.py. An event handler returns its
-- directive and the new state; `none` is a raised `RunIdChanged`, before anything is written.
pub mod Handshake
use spaceport_bazzar_client.Base.{
  leb, if◌then◌else◌, ◌==◌, nat_eq, ℕ, max, Bool, true, false, not, ◌&&◌, ◌||◌, Option, none, some,
}
use spaceport_bazzar_client.Domain.Types.{
  Phase, ControlCode, object_eq, ProtocolErrorEvent, ReadinessAck, Snapshot, ServerEvent,
}

pub data SessionState : Type 0 where
  disconnected awaiting_first_state awaiting_readiness active closed : SessionState

-- What the text of an abort says.
pub data AbortReason : Type 0 where
  other_run : ℕ → Option ℕ → AbortReason
  other_sequence : ℕ → Option ℕ → AbortReason
  fatal : ControlCode → AbortReason

pub data Directive : Type 0 where
  send_ready : ℕ → ℕ → Directive
  reconnect : ControlCode → Directive
  abort : AbortReason → Option ControlCode → Directive

pub record Lifecycle : Type 0 where
  pub state : SessionState
  pub run_id : Option ℕ
  pub phase : Option Phase
  pub ready_sequence : Option ℕ
  pub last_snapshot_sequence : ℕ

-- `SessionLifecycle()`
abbrev pub new_lifecycle : Lifecycle
new_lifecycle = record {
  state = SessionState.disconnected;
  run_id = none;
  phase = none;
  ready_sequence = none;
  last_snapshot_sequence = 0;
}

-- `code in FATAL_CONTROL_CODES`
abbrev pub is_fatal : ControlCode → Bool
is_fatal ControlCode.unsupported_version = true
is_fatal ControlCode.run_mismatch = true
is_fatal ControlCode.invalid_authentication = true
is_fatal _ = false

-- `phase in TRADING_PHASES`
abbrev pub is_trading_phase : Option Phase → Bool
is_trading_phase (some Phase.running) = true
is_trading_phase _ = false

-- `state is ACTIVE`, which is `is_ready`
abbrev pub is_active_state : SessionState → Bool
is_active_state SessionState.active = true
is_active_state _ = false

abbrev pub is_awaiting_first : SessionState → Bool
is_awaiting_first SessionState.awaiting_first_state = true
is_awaiting_first _ = false

abbrev pub is_awaiting_readiness : SessionState → Bool
is_awaiting_readiness SessionState.awaiting_readiness = true
is_awaiting_readiness _ = false

abbrev pub is_closed : SessionState → Bool
is_closed SessionState.closed = true
is_closed _ = false

unfoldable pub can_send_trading_commands : Lifecycle → Bool
can_send_trading_commands c = is_active_state c.state && is_trading_phase c.phase

unfoldable pub can_send_control_messages : Lifecycle → Bool
can_send_control_messages c =
    is_awaiting_first c.state || is_awaiting_readiness c.state || is_active_state c.state

unfoldable pub on_connected : Lifecycle → Lifecycle
on_connected c = record c {
  state = SessionState.awaiting_first_state;
  ready_sequence = none;
  last_snapshot_sequence = 0;
}

pub on_disconnected : Lifecycle → Lifecycle
on_disconnected c = if is_closed c.state then c else record c { state = SessionState.disconnected }

pub reset_for_new_connection : Lifecycle → Lifecycle
reset_for_new_connection c = record c {
  state = SessionState.disconnected;
  phase = none;
  ready_sequence = none;
  last_snapshot_sequence = 0;
}

-- `known == n`, where `known` may be `None`
abbrev pub is_the : Option ℕ → ℕ → Bool
is_the none n = false
is_the (some m) n = m == n

-- `known is not None and known != n`
abbrev pub is_another : Option ℕ → ℕ → Bool
is_another none n = false
is_another (some m) n = not (m == n)

-- The writes of `_on_snapshot` for a snapshot of this run that is newer than the last.
pub take_snapshot : Snapshot → Lifecycle → Option Directive × Lifecycle
take_snapshot snap c =
    let taken : Lifecycle = record c {
      run_id = some snap.run_id;
      phase = some snap.phase;
      last_snapshot_sequence = max c.last_snapshot_sequence snap.snapshot_sequence;
    } in
    if is_awaiting_first c.state
    then (
      some (Directive.send_ready snap.run_id snap.snapshot_sequence),
      record taken {
        state = SessionState.awaiting_readiness;
        ready_sequence = some snap.snapshot_sequence;
      },
    )
    else (none, taken)

pub on_snapshot : Snapshot → Lifecycle → Option (Option Directive × Lifecycle)
unfolding take_snapshot
on_snapshot snap c =
    if is_another c.run_id snap.run_id
    then none
    else if leb snap.snapshot_sequence c.last_snapshot_sequence
    then some (none, c)
    else some (take_snapshot snap c)

pub on_readiness : ReadinessAck → Lifecycle → Option Directive × Lifecycle
on_readiness ack c =
    if not (is_awaiting_readiness c.state)
    then (none, c)
    else if not (is_the c.run_id ack.run_id)
    then (some (Directive.abort (AbortReason.other_run ack.run_id c.run_id) none), c)
    else if not (is_the c.ready_sequence ack.snapshot_sequence)
    then (
      some (
          Directive.abort (AbortReason.other_sequence ack.snapshot_sequence c.ready_sequence) none),
      c,
    )
    else if not ack.ready
    then (none, c)
    else (none, record c { state = SessionState.active })

pub on_protocol_error : ProtocolErrorEvent → Lifecycle → Option Directive × Lifecycle
on_protocol_error ev c =
    if is_fatal ev.code
    then (
      some (Directive.abort (AbortReason.fatal ev.code) (some ev.code)),
      record c { state = SessionState.closed },
    )
    else if ev.close_session
    then (some (Directive.reconnect ev.code), record c { state = SessionState.disconnected })
    else (none, c)

unfoldable pub on_event : ServerEvent → Lifecycle → Option (Option Directive × Lifecycle)
unfolding on_snapshot on_readiness on_protocol_error
on_event (ServerEvent.snapshot snap) c = on_snapshot snap c
on_event (ServerEvent.readiness ack) c = some (on_readiness ack c)
on_event (ServerEvent.protocol_error ev) c = some (on_protocol_error ev c)
on_event (ServerEvent.command_result result) c = some (none, c)
