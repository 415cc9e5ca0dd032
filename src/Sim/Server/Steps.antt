-- ===== src/Sim/Server/Steps.antt =====
-- Every moment of the server (bazaar_sim/server.py): connections, messages, the start and the ticks,
-- in any order.
use mathlib.Core.Option.{some-injective}
use mathlib.Core.Path.{subst}
use spaceport_bazzar_client.Base.{
  Bool-cases, Option-cases, >>=-eq_some, length, All, ℕ, ◌+◌, ◌≤◌, ◌<◌, String, ◌≡◌, refl, sym, ap,
  ◌∙◌, inl, inr, Bool, false, Option, none, some, List, [], ◌∷◌, map, arith,
}
use spaceport_bazzar_client.Domain.Bundle.{Bundle}
use spaceport_bazzar_client.Domain.Types.{Phase, ControlCode}
use spaceport_bazzar_client.Sim.Station.{SimStation}
use spaceport_bazzar_client.Sim.Economy.{
  Economy, advance_tick, is_finished, end_run, apply_production,
}
use spaceport_bazzar_client.Sim.Economy.Invariant.{IsValid}
use spaceport_bazzar_client.Sim.Economy.Invariant.Time.{advance_tick-ticked, ticked-rules}
use spaceport_bazzar_client.Sim.Economy.Run.{Step, Holds, noted-Holds, Step-Holds}
use spaceport_bazzar_client.Sim.Server.State.{
  Records, Server, ClientCommand, same_phase, seat_of, send_protocol_error, new_server,
}
use spaceport_bazzar_client.Sim.Server.Handlers.{
  seat_newcomer, begun, ticked_world, on_message, connect, disconnect, start_run, advance,
}
use spaceport_bazzar_client.Sim.Server.Sending.{send_state-SameWorld, send_each-SameWorld}
use spaceport_bazzar_client.Sim.Server.Keeping.{IsServing, SameWorld-IsServing, IsServing-on}
use spaceport_bazzar_client.Sim.Server.Messages.{on_message-IsServing}

-- One event of the server, with the protocol version that it speaks.
pub data ServerStep (names : ℕ → String) (version : ℕ) (sv sv' : Server) : Type 0 where
  connected : (sid : ℕ) → connect names sid sv ≡ some sv' → ServerStep names version sv sv'
  disconnected : (sid : ℕ) → sv' ≡ disconnect names sid sv → ServerStep names version sv sv'
  -- bytes that are no message
  garbled :
      (sid : ℕ) (id : Option ℕ)
      → sv' ≡ send_protocol_error sid ControlCode.bad_message id false sv
      → ServerStep names version sv sv'
  received :
      (sid : ℕ) (message : ClientCommand) (goes_on : Bool)
      → on_message names version sid message sv ≡ some (sv', goes_on)
      → ServerStep names version sv sv'
  started : start_run names sv ≡ some sv' → ServerStep names version sv sv'
  ticked_on : advance names sv ≡ some sv' → ServerStep names version sv sv'

apply_production-rules :
    (produce : ℕ → ℕ → ℕ) (e : Economy) → (apply_production produce e).rules ≡ e.rules
unfolding apply_production
apply_production-rules produce e = refl

end_run-rules : (e : Economy) → (end_run e).rules ≡ e.rules
unfolding end_run
end_run-rules e = refl

module _ (names : ℕ → String) (starts : ℕ → Bundle) where
  seat_newcomer-IsServing :
      (sid : ℕ) (sv : Server) → IsServing starts sv → IsServing starts (seat_newcomer sid sv)
  seat_newcomer-IsServing sid sv h = elim (Option-cases (seat_of sid sv.seats)) [
    | inl new ↦ rw new (record { world = h.world; bounded = h.bounded })
    | inr (seat, old) ↦ rw old (record { world = h.world; bounded = h.bounded })
  ]

  connect-IsServing :
      (sid : ℕ) (sv sv' : Server)
      → IsServing starts sv
      → connect names sid sv ≡ some sv'
      → IsServing starts sv'
  unfolding connect
  connect-IsServing sid sv sv' h e =
      SameWorld-IsServing starts (seat_newcomer sid sv) sv'
        (send_state-SameWorld names sid (seat_newcomer sid sv) sv' e)
        (seat_newcomer-IsServing sid sv h)

  start_run-IsServing :
      (sv sv' : Server) → IsServing starts sv → start_run names sv ≡ some sv' → IsServing starts sv'
  unfolding start_run
  start_run-IsServing sv sv' h e = elim (Bool-cases (same_phase sv.phase Phase.ready)) [
    | inr late ↦ subst (IsServing starts) (some-injective _ _ (rw late at e)) h
    | inl first ↦
        SameWorld-IsServing starts (begun sv) sv'
          (send_each-SameWorld names sv.seats (begun sv) sv' (rw first at e))
          (record {
            world =
                noted-Holds starts sv.economy sv.economy.rejections (sv.economy.world_version + 1)
                  h.world;
            bounded = h.bounded;
          })
  ]

  ticked_world-Holds :
      (sv : Server) (e : Economy)
      → Holds starts sv.economy
      → ticked_world sv ≡ some e
      → (e.rules ≡ sv.economy.rules) × Holds starts e
  unfolding ticked_world
  ticked_world-Holds sv e h run =
      let (after, ticked_now, rest) = >>=-eq_some (advance_tick sv.economy) _ run in
      let same : after.rules ≡ sv.economy.rules =
        ap (λ (d : Economy). d.rules)
          (some-injective _ _ (sym ticked_now ∙ advance_tick-ticked sv.economy))
        ∙ ticked-rules sv.economy in
      let kept = Step-Holds starts sv.economy after h (Step.tick ticked_now) in
      elim (Option-cases sv.production) [
        | inl idle ↦
            subst (λ (d : Economy). (d.rules ≡ sv.economy.rules) × Holds starts d)
              (some-injective _ _ (rw idle at rest)) (same, kept)
        | inr (produce, set) ↦
            subst (λ (d : Economy). (d.rules ≡ sv.economy.rules) × Holds starts d)
              (some-injective _ _ (rw set at rest))
              (
                apply_production-rules produce after ∙ same,
                Step-Holds starts after (apply_production produce after) kept
                    (Step.production produce refl),
              )
      ]

  advance-IsServing :
      (sv sv' : Server) → IsServing starts sv → advance names sv ≡ some sv' → IsServing starts sv'
  unfolding advance
  advance-IsServing sv sv' h e = elim (Bool-cases (same_phase sv.phase Phase.running)) [
    | inr halted ↦ subst (IsServing starts) (some-injective _ _ (rw halted at e)) h
    | inl going ↦
        let (world, run, rest) = >>=-eq_some (ticked_world sv) _ (rw going at e) in
        let (same, kept) = ticked_world-Holds sv world h.world run in
        elim (Bool-cases (is_finished world)) [
          | inr on ↦
              let next = record sv { economy = world } in
              SameWorld-IsServing starts next sv'
                (send_each-SameWorld names sv.seats next sv' (rw on at rest))
                (IsServing-on starts sv world same kept h)
          | inl over ↦
              let last = record sv { economy = end_run world; phase = Phase.finished } in
              SameWorld-IsServing starts last sv'
                (send_each-SameWorld names sv.seats last sv' (rw over at rest))
                (record {
                  world = Step-Holds starts world (end_run world) kept (Step.finish refl);
                  bounded = rw (end_run-rules world ∙ same) h.bounded;
                })
        ]
  ]

  ServerStep-IsServing :
      (version : ℕ) (sv sv' : Server)
      → IsServing starts sv
      → ServerStep names version sv sv'
      → IsServing starts sv'
  unfolding disconnect
  ServerStep-IsServing version sv sv' h (ServerStep.connected sid e) =
      connect-IsServing sid sv sv' h e
  ServerStep-IsServing version sv sv' h (ServerStep.disconnected sid e) =
      rw e (record { world = h.world; bounded = h.bounded })
  ServerStep-IsServing version sv sv' h (ServerStep.garbled sid id e) =
      rw e (record { world = h.world; bounded = h.bounded })
  ServerStep-IsServing version sv sv' h (ServerStep.received sid message goes_on e) =
      on_message-IsServing names starts version sid message sv (sv', goes_on) h e
  ServerStep-IsServing version sv sv' h (ServerStep.started e) = start_run-IsServing sv sv' h e
  ServerStep-IsServing version sv sv' h (ServerStep.ticked_on e) = advance-IsServing sv sv' h e

-- The states that a server comes to.
pub data ServerReach (names : ℕ → String) (version : ℕ) (sv : Server) : Server → Type 0 where
  fresh : ServerReach names version sv sv
  onward :
      {a b : Server}
      → ServerReach names version sv a
      → ServerStep names version a b
      → ServerReach names version sv b

no_records :
    (bound : ℕ) (l : List SimStation)
    → All (λ (r : ℕ × Records). length r.1 ≤ bound) (map (λ (s : SimStation). (s.station_id, [])) l)
no_records bound [] = tt
no_records bound (s ∷ l) = (omega arith, no_records bound l)

new_server-IsServing :
    (starts : ℕ → Bundle) (e : Economy) (start_when : ℕ) (production : Option (ℕ → ℕ → ℕ))
    → Holds starts e
    → IsServing starts (new_server e start_when production)
unfolding new_server apply_production
new_server-IsServing starts e start_when none h = record {
  world = h;
  bounded = no_records e.rules.max_request_records_per_station e.stations;
}
new_server-IsServing starts e start_when (some produce) h = record {
  world = Step-Holds starts e (apply_production produce e) h (Step.production produce refl);
  bounded = no_records e.rules.max_request_records_per_station e.stations;
}

-- Whatever connections, messages, starts and ticks come, and in whatever order, the economy of a
-- server that began with a valid one is valid, and no planet has more stored results than the rules
-- allow. The rules allow some health.
pub server_run-IsServing :
    (names : ℕ → String) (version : ℕ) (starts : ℕ → Bundle) (e : Economy) (start_when : ℕ)
    (production : Option (ℕ → ℕ → ℕ)) {sv : Server}
    → 0 < e.rules.max_health
    → IsValid starts e
    → ServerReach names version (new_server e start_when production) sv
    → IsServing starts sv
server_run-IsServing names version starts e start_when production m v r = go r
  where
    go :
        {a : Server}
        → ServerReach names version (new_server e start_when production) a
        → IsServing starts a
    go ServerReach.fresh = new_server-IsServing starts e start_when production (m, v)
    go (ServerReach.onward r s) = ServerStep-IsServing names starts version _ _ (go r) s
