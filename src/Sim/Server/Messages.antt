-- ===== src/Sim/Server/Messages.antt =====
-- A message keeps the world of the server valid (bazaar_sim/server.py).
use mathlib.Core.Option.{some-injective}
use mathlib.Core.Path.{subst}
use spaceport_bazzar_client.Base.{
  ltb, leb, ◌==◌, nat_eq, Bool-cases, Option-cases, >>=-eq_some, length, keep_if, ℕ, String, ◌≡◌,
  inl, inr, Bool, ◌&&◌, some, arith,
}
use spaceport_bazzar_client.Domain.Bundle.{resource_eq, Bundle}
use spaceport_bazzar_client.Domain.Types.{Phase, object_eq, ServerEvent}
use spaceport_bazzar_client.Execution.Actions.{Action}
use spaceport_bazzar_client.Sim.Server.State.{
  Seat, Server, Body, ClientCommand, same_phase, seat_of, records_of, record_of, add_record, send,
  result_for, send_state,
}
use spaceport_bazzar_client.Sim.Server.Handlers.{
  carry_out, maybe_start, readied, handle_command, on_body, on_message,
}
use spaceport_bazzar_client.Sim.Server.Sending.{send_state-SameWorld, send_each-SameWorld}
use spaceport_bazzar_client.Sim.Server.Keeping.{
  IsServing, SameWorld-IsServing, add_record-bounded, carry_out-Holds,
}

module _ (names : ℕ → String) (starts : ℕ → Bundle) where
  handle_command-IsServing :
      (sid id : ℕ) (action : Action) (fingerprint : ℕ) (sv sv' : Server)
      → IsServing starts sv
      → handle_command names sid id action fingerprint sv ≡ some sv'
      → IsServing starts sv'
  unfolding handle_command
  handle_command-IsServing sid id action fingerprint sv sv' h e =
      let (stored, known, e1) = >>=-eq_some (records_of sid sv.results) _ e in
      elim (Option-cases (record_of id stored)) [
        | inr (previous, old) ↦ elim (Bool-cases (previous.fingerprint == fingerprint)) [
          | inl same ↦
              SameWorld-IsServing starts (send sid (ServerEvent.command_result previous.result) sv)
                sv'
                (send_state-SameWorld names sid
                  (send sid (ServerEvent.command_result previous.result) sv) sv'
                  (rw (old, same) at e1))
                (record { world = h.world; bounded = h.bounded })
          | inr other ↦
              subst (IsServing starts) (some-injective _ _ (rw (old, other) at e1))
                (record { world = h.world; bounded = h.bounded })
        ]
        | inl new ↦
            elim (Bool-cases
              (leb sv.economy.rules.max_request_records_per_station (length stored))) [
                | inl full ↦
                    subst (IsServing starts) (some-injective _ _ (rw (new, full) at e1))
                      (record { world = h.world; bounded = h.bounded })
                | inr room ↦
                    let (done, run, e2) =
                      >>=-eq_some (carry_out sid action sv) _ (rw (new, room) at e1) in
                    let (same, kept) = carry_out-Holds starts sid action sv done h.world run in
                    let result =
                      result_for id done.0.code done.0.object_id done.0.transaction_id done.1 in
                    let answered = send sid (ServerEvent.command_result result) (record sv {
                      economy = done.1;
                      results =
                          add_record sid id (record { fingerprint = fingerprint; result = result })
                            sv.results;
                    }) in
                    SameWorld-IsServing starts answered sv'
                      (send_each-SameWorld names answered.seats answered sv' e2)
                      (record {
                        world = kept;
                        bounded = rw same (
                            add_record-bounded sv.economy.rules.max_request_records_per_station sid
                              id (record { fingerprint = fingerprint; result = result }) sv.results
                              stored known (ground arith) h.bounded);
                      })
              ]
      ]

  maybe_start-IsServing : (sv : Server) → IsServing starts sv → IsServing starts (maybe_start sv)
  maybe_start-IsServing sv h =
      let asked =
        same_phase sv.phase Phase.ready
        && ltb 0 sv.start_when
        && leb sv.start_when (length (keep_if (λ (s : Seat). s.ready) sv.seats)) in
      elim (Bool-cases asked) [
        | inl now ↦ rw now (record { world = h.world; bounded = h.bounded })
        | inr later ↦ rw later h
      ]

  on_body-IsServing :
      (sid : ℕ) (body : Body) (sv : Server) (res : Server × Bool)
      → IsServing starts sv
      → on_body names sid body sv ≡ some res
      → IsServing starts res.0
  unfolding on_body
  on_body-IsServing sid (Body.declare flag sequence) sv res h e =
      let (seat, found, e1) = >>=-eq_some (seat_of sid sv.seats) _ e in
      subst (λ (r : Server × Bool). IsServing starts r.0) (some-injective _ _ e1)
        (maybe_start-IsServing (readied sid seat flag sequence sv)
          (record { world = h.world; bounded = h.bounded }))
  on_body-IsServing sid Body.resync sv res h e =
      let (after, run, e1) = >>=-eq_some (send_state names sid sv) _ e in
      subst (λ (r : Server × Bool). IsServing starts r.0) (some-injective _ _ e1)
        (SameWorld-IsServing starts sv after (send_state-SameWorld names sid sv after run) h)
  on_body-IsServing sid (Body.command id action fingerprint) sv res h e =
      let (seat, found, e1) = >>=-eq_some (seat_of sid sv.seats) _ e in
      elim (Bool-cases seat.ready) [
        | inr early ↦
            subst (λ (r : Server × Bool). IsServing starts r.0)
              (some-injective _ _ (rw early at e1))
              (record { world = h.world; bounded = h.bounded })
        | inl declared ↦
            let (after, run, e2) =
              >>=-eq_some (handle_command names sid id action fingerprint sv) _
                (rw declared at e1) in
            subst (λ (r : Server × Bool). IsServing starts r.0) (some-injective _ _ e2)
              (handle_command-IsServing sid id action fingerprint sv after h run)
      ]

  pub on_message-IsServing :
      (version sid : ℕ) (message : ClientCommand) (sv : Server) (res : Server × Bool)
      → IsServing starts sv
      → on_message names version sid message sv ≡ some res
      → IsServing starts res.0
  unfolding on_message
  on_message-IsServing version sid message sv res h e =
      elim (Bool-cases (message.protocol_version == version)) [
        | inr other ↦
            subst (λ (r : Server × Bool). IsServing starts r.0) (some-injective _ _ (rw other at e))
              (record { world = h.world; bounded = h.bounded })
        | inl same ↦ elim (Bool-cases (message.run_id == sv.economy.run_id)) [
          | inr foreign_run ↦
              subst (λ (r : Server × Bool). IsServing starts r.0)
                (some-injective _ _ (rw (same, foreign_run) at e))
                (record { world = h.world; bounded = h.bounded })
          | inl this_run ↦ on_body-IsServing sid message.body sv res h (rw (same, this_run) at e)
        ]
      ]
