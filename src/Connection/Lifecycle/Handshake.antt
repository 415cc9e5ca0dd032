-- ===== src/Connection/Lifecycle/Handshake.antt =====
-- The handshake and the gate on trading (bazaar_client/connection/lifecycle.py).
use mathlib.Core.Option.{some-injective}
use mathlib.Core.Path.{subst}
use spaceport_bazzar_client.Base.{
  if◌then◌else◌, ◌>>=◌, >>=-eq_some, length, keep_if, ℕ, ◌+◌, ◌≤◌, ◌<◌, ◌≡◌, refl, sym, ap, ◌≢◌,
  ◌↔◌, ◌⊎◌, inl, inr, Bool, true, false, Option, none, some, List, [], ◌∷◌, ◌++◌, arith,
}
use spaceport_bazzar_client.Domain.Types.{Phase, Snapshot, ServerEvent}
use spaceport_bazzar_client.Connection.Lifecycle.{
  SessionState, Directive, Lifecycle, is_awaiting_first, can_send_trading_commands, on_connected,
  is_the, on_event,
}

-- The confirmation that opens trading: ready, for this run and for the declared snapshot.
abbrev pub Confirms : ServerEvent → Lifecycle → Type 0
Confirms (ServerEvent.readiness ack) c =
    (ack.ready ≡ true)
    × (c.run_id ≡ some ack.run_id)
    × (c.ready_sequence ≡ some ack.snapshot_sequence)
Confirms _ c = ⊥

is_the-eq : (o : Option ℕ) (n : ℕ) → is_the o n ≡ true → o ≡ some n
is_the-eq none n h = cc
is_the-eq (some m) n h = ground arith

-- A session becomes active only by a matching confirmation, received while it waits for one.
pub on_event_activates :
    (ev : ServerEvent) (c c' : Lifecycle) (d : Option Directive)
    → on_event ev c ≡ some (d, c')
    → c.state ≢ SessionState.active
    → c'.state ≡ SessionState.active
    → (c.state ≡ SessionState.awaiting_readiness) × Confirms ev c
unfolding on_event
on_event_activates (ServerEvent.snapshot snap) c c' d h was now = ground arith
on_event_activates (ServerEvent.readiness ack) c c' d h was now =
    ground (arith, is_the-eq c.run_id ack.run_id, is_the-eq c.ready_sequence ack.snapshot_sequence)
on_event_activates (ServerEvent.protocol_error ev) c c' d h was now = ground arith
on_event_activates (ServerEvent.command_result r) c c' d h was now = ground arith

-- Readiness is declared exactly for a snapshot that opens a connection: of the right run, with a
-- sequence above the last. It is declared for that very snapshot.
pub on_snapshot_declares :
    (snap : Snapshot) (c c' : Lifecycle) (d : Option Directive) (run seq : ℕ)
    → on_event (ServerEvent.snapshot snap) c ≡ some (d, c')
    → (d ≡ some (Directive.send_ready run seq)) ↔ (
        (c.state ≡ SessionState.awaiting_first_state)
        × (c.last_snapshot_sequence < snap.snapshot_sequence)
        × (run ≡ snap.run_id)
        × (seq ≡ snap.snapshot_sequence))
unfolding on_event
on_snapshot_declares snap c c' d run seq h = ground arith

-- A known run id is fixed: no event that is handled changes it.
pub on_event-run_id :
    (ev : ServerEvent) (c c' : Lifecycle) (d : Option Directive) (run : ℕ)
    → c.run_id ≡ some run
    → on_event ev c ≡ some (d, c')
    → c'.run_id ≡ some run
unfolding on_event
on_event-run_id (ServerEvent.snapshot snap) c c' d run k h = ground arith
on_event-run_id (ServerEvent.readiness ack) c c' d run k h = ground arith
on_event-run_id (ServerEvent.protocol_error ev) c c' d run k h = ground arith
on_event-run_id (ServerEvent.command_result r) c c' d run k h = ground arith

-- No event that is handled moves the last snapshot sequence back.
pub on_event-last_sequence :
    (ev : ServerEvent) (c c' : Lifecycle) (d : Option Directive)
    → on_event ev c ≡ some (d, c')
    → c.last_snapshot_sequence ≤ c'.last_snapshot_sequence
unfolding on_event
on_event-last_sequence (ServerEvent.snapshot snap) c c' d h = ground arith
on_event-last_sequence (ServerEvent.readiness ack) c c' d h = ground arith
on_event-last_sequence (ServerEvent.protocol_error ev) c c' d h = ground arith
on_event-last_sequence (ServerEvent.command_result r) c c' d h = ground arith

abbrev pub collected : Option Directive → List Directive → List Directive
collected none ds = ds
collected (some directive) ds = directive ∷ ds

-- Every event of a connection in turn, with the directives given.
unfoldable pub on_events : List ServerEvent → Lifecycle → Option (List Directive × Lifecycle)
on_events [] c = some ([], c)
on_events (ev ∷ evs) c = do
  (d, after) ← on_event ev c
  (ds, last) ← on_events evs after
  some (collected d ds, last)

abbrev pub is_send_ready : Directive → Bool
is_send_ready (Directive.send_ready run seq) = true
is_send_ready _ = false

abbrev pub declarations : List Directive → ℕ
declarations ds = length (keep_if is_send_ready ds)

-- At most how many declarations are still to come.
abbrev budget : Lifecycle → ℕ
budget c = if is_awaiting_first c.state then 1 else 0

on_event-budget :
    (ev : ServerEvent) (c c' : Lifecycle) (d : Option Directive)
    → on_event ev c ≡ some (d, c')
    → (elim d [ none ↦ 0 | some directive ↦ if is_send_ready directive then 1 else 0 ]) + budget c'
      ≤ budget c
unfolding on_event
on_event-budget (ServerEvent.snapshot snap) c c' d h = ground arith
on_event-budget (ServerEvent.readiness ack) c c' d h = ground arith
on_event-budget (ServerEvent.protocol_error ev) c c' d h = ground arith
on_event-budget (ServerEvent.command_result r) c c' d h = ground arith

on_events-budget :
    (evs : List ServerEvent) (c c' : Lifecycle) (ds : List Directive)
    → on_events evs c ≡ some (ds, c')
    → declarations ds + budget c' ≤ budget c
unfolding on_events
on_events-budget [] c c' ds h = ground arith
on_events-budget (ev ∷ evs) c c' ds h =
    let ((d, after), first, rest) = >>=-eq_some (on_event ev c) _ h in
    let ((es, last), later, made) = >>=-eq_some (on_events evs after) _ rest in
    ground (arith, on_event-budget ev c after d first, on_events-budget evs after last es later)

-- On one connection readiness is declared at most once, whatever the server sends.
pub on_events_declare_once :
    (evs : List ServerEvent) (c c' : Lifecycle) (ds : List Directive)
    → on_events evs (on_connected c) ≡ some (ds, c')
    → declarations ds ≤ 1
unfolding on_connected
on_events_declare_once evs c c' ds h = omega (arith, on_events-budget evs (on_connected c) c' ds h)

-- Among the events there is a confirmation that the session waited for.
pub record Confirmation (evs : List ServerEvent) (c : Lifecycle) : Type 0 where
  pub before : List ServerEvent
  pub event : ServerEvent
  pub later : List ServerEvent
  pub middle : Lifecycle
  pub given : List Directive
  pub split : evs ≡ before ++ event ∷ later
  pub reached : on_events before c ≡ some (given, middle)
  pub waiting : middle.state ≡ SessionState.awaiting_readiness
  pub confirms : Confirms event middle

active-or-not : (s : SessionState) → (s ≡ SessionState.active) ⊎ (s ≢ SessionState.active)
active-or-not SessionState.active = inl refl
active-or-not SessionState.disconnected = inr (λ e. cc)
active-or-not SessionState.awaiting_first_state = inr (λ e. cc)
active-or-not SessionState.awaiting_readiness = inr (λ e. cc)
active-or-not SessionState.closed = inr (λ e. cc)

on_events-cons :
    (ev : ServerEvent) (c after m : Lifecycle) (d : Option Directive) (before : List ServerEvent)
    (es : List Directive)
    → on_event ev c ≡ some (d, after)
    → on_events before after ≡ some (es, m)
    → on_events (ev ∷ before) c ≡ some (collected d es, m)
unfolding on_events
on_events-cons ev c after m d before es first rest = rw (first, ◌>>=◌, rest) refl

on_events_confirm :
    (evs : List ServerEvent) (c c' : Lifecycle) (ds : List Directive)
    → c.state ≢ SessionState.active
    → on_events evs c ≡ some (ds, c')
    → c'.state ≡ SessionState.active
    → Confirmation evs c
unfolding on_events
on_events_confirm [] c c' ds was h now = absurd (
    was (
      subst (λ (p : List Directive × Lifecycle). p.1.state ≡ SessionState.active)
        (sym (some-injective _ _ h)) now))
on_events_confirm (ev ∷ evs) c c' ds was h now =
    let ((d, after), first, rest) = >>=-eq_some (on_event ev c) _ h in
    let ((es, last), later, made) = >>=-eq_some (on_events evs after) _ rest in
    elim (active-or-not after.state) [
      | inl turned ↦
          let (waiting, confirms) = on_event_activates ev c after d first was turned in
          record {
            before = [];
            event = ev;
            later = evs;
            middle = c;
            given = [];
            split = refl;
            reached = refl;
            waiting = waiting;
            confirms = confirms;
          }
      | inr still ↦
          let k = on_events_confirm evs after last es still later (
            subst (λ (p : List Directive × Lifecycle). p.1.state ≡ SessionState.active)
              (sym (some-injective _ _ made)) now) in
          record {
            before = ev ∷ k.before;
            event = k.event;
            later = k.later;
            middle = k.middle;
            given = collected d k.given;
            split = ap (◌∷◌ ev) k.split;
            reached = on_events-cons ev c after k.middle d k.before k.given first k.reached;
            waiting = k.waiting;
            confirms = k.confirms;
          }
    ]

-- If trading is allowed after some events of a connection, there is among them a confirmation, at a
-- moment when the session waited for it, that matches the run and the declared snapshot; and the
-- phase is RUNNING.
pub on_events_gate :
    (evs : List ServerEvent) (c c' : Lifecycle) (ds : List Directive)
    → on_events evs (on_connected c) ≡ some (ds, c')
    → can_send_trading_commands c' ≡ true
    → Confirmation evs (on_connected c) × (c'.phase ≡ some Phase.running)
unfolding on_connected can_send_trading_commands
on_events_gate evs c c' ds h gate =
    (on_events_confirm evs (on_connected c) c' ds (λ e. cc) h (ground arith), ground arith)
