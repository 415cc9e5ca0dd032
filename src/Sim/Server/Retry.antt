-- ===== src/Sim/Server/Retry.antt =====
-- A request that is sent again (bazaar_sim/server.py).
use mathlib.Core.Option.{some-injective}
use spaceport_bazzar_client.Base.{
  leb, ◌==◌, nat_eq, Bool-cases, ◌>>=◌, >>=-eq_some, length, ℕ, ◌+◌, String, ◌≡◌, refl, sym, ap,
  ◌∙◌, inl, inr, true, false, Option, none, some, List, [], ◌∷◌, ◌++◌, map, arith,
}
use spaceport_bazzar_client.Domain.Bundle.{resource_eq}
use spaceport_bazzar_client.Domain.Types.{object_eq, Snapshot, ServerEvent}
use spaceport_bazzar_client.Execution.Actions.{Action}
use spaceport_bazzar_client.Sim.Economy.{CommandOutcome, Economy, observation_for}
use spaceport_bazzar_client.Sim.Server.State.{
  StoredResult, Records, Server, seat_of, records_of, record_of, add_record, send, result_for,
  outcome_told, send_state,
}
use spaceport_bazzar_client.Sim.Server.Handlers.{carry_out, handle_command}
use spaceport_bazzar_client.Sim.Server.Sending.{send_state-SameWorld, send_each-SameWorld}

record_of-append :
    (id : ℕ) (stored : StoredResult) (records : Records)
    → record_of id records ≡ none
    → record_of id (records ++ (id, stored) ∷ []) ≡ some stored
unfolding record_of
record_of-append id stored [] h = ground arith
record_of-append id stored ((j, old) ∷ records) h = elim (Bool-cases (j == id)) [
  | inl same ↦ let bad : ◌≡◌ {A = Option StoredResult} (some old) none = rw same at h in absurd (cc)
  | inr other ↦ rw other (record_of-append id stored records (rw other at h))
]

records_of-add_record :
    (sid id : ℕ) (stored : StoredResult) (results : List (ℕ × Records)) (records : Records)
    → records_of sid results ≡ some records
    → records_of sid (add_record sid id stored results) ≡ some (records ++ (id, stored) ∷ [])
unfolding records_of add_record
records_of-add_record sid id stored [] records h = absurd (cc)
records_of-add_record sid id stored ((j, known) ∷ results) records h =
    elim (Bool-cases (j == sid)) [
      | inl same ↦
          let mine : known ≡ records = some-injective _ _ (rw same at h) in
          rw (same, same, mine) refl
      | inr other ↦
          rw (other, other) (records_of-add_record sid id stored results records (rw other at h))
    ]

-- The answer that is stored for a request.
abbrev pub answer_to : ℕ → ℕ → Server → Option StoredResult
answer_to sid id sv = records_of sid sv.results >>= record_of id

added_is_answer :
    (sid id : ℕ) (stored : StoredResult) (results : List (ℕ × Records)) (records : Records)
    → records_of sid results ≡ some records
    → record_of id records ≡ none
    → (records_of sid (add_record sid id stored results) >>= record_of id) ≡ some stored
added_is_answer sid id stored results records known new =
    rw (records_of-add_record sid id stored results records known, ◌>>=◌)
      (record_of-append id stored records new)

module _ (names : ℕ → String) where
  -- A request that is processed for the first time, while there is room for its record, is stored
  -- with its fingerprint.
  handle_command-stored :
      (sid id : ℕ) (action : Action) (fingerprint : ℕ) (stored : Records) (sv sv' : Server)
      → records_of sid sv.results ≡ some stored
      → record_of id stored ≡ none
      → leb sv.economy.rules.max_request_records_per_station (length stored) ≡ false
      → handle_command names sid id action fingerprint sv ≡ some sv'
      → (done : CommandOutcome × Economy) × (carry_out sid action sv ≡ some done)
        × (sv'.economy ≡ done.1)
        × (answer_to sid id sv'
            ≡ some (record {
              fingerprint = fingerprint;
              result = result_for id done.0.code done.0.object_id done.0.transaction_id done.1;
            }))
  unfolding handle_command
  handle_command-stored sid id action fingerprint stored sv sv' known new room e =
      let (done, run, e2) =
        >>=-eq_some (carry_out sid action sv) _
          (rw (handle_command, known, ◌>>=◌, new, room) at e) in
      let result = result_for id done.0.code done.0.object_id done.0.transaction_id done.1 in
      let kept : StoredResult = record { fingerprint = fingerprint; result = result } in
      let answered =
        send sid (ServerEvent.command_result result)
          (record sv { economy = done.1; results = add_record sid id kept sv.results }) in
      let same = send_each-SameWorld names answered.seats answered sv' e2 in
      (
        done,
        run,
        same.same_economy,
        ap (λ (l : List (ℕ × Records)). records_of sid l >>= record_of id) same.same_results
            ∙ added_is_answer sid id kept sv.results stored known new,
      )

  send_state-sent :
      (sid : ℕ) (sv sv' : Server)
      → send_state names sid sv ≡ some sv'
      → (snap : Snapshot) × (sv'.sent ≡ sv.sent ++ (sid, ServerEvent.snapshot snap) ∷ [])
  unfolding send_state
  send_state-sent sid sv sv' e =
      let (seat, found, e1) = >>=-eq_some (seat_of sid sv.seats) _ e in
      let (records, known, e2) = >>=-eq_some (records_of sid sv.results) _ e1 in
      let (outcome, told, e3) = >>=-eq_some (outcome_told sid sv) _ e2 in
      let (snap, shown, e4) =
        >>=-eq_some
          (observation_for names sid (seat.sequence + 1) sv.phase (map (λ r. r.1.result) records)
            outcome sv.economy)
          _ e3 in
      (snap, ap (λ (s : Server). s.sent) (some-injective _ _ (sym e4)))

  -- What is done for a request that has an answer and the same fingerprint.
  handle_command-again :
      (sid id : ℕ) (action : Action) (stored : StoredResult) (sv sv' : Server)
      → answer_to sid id sv ≡ some stored
      → handle_command names sid id action stored.fingerprint sv ≡ some sv'
      → send_state names sid (send sid (ServerEvent.command_result stored.result) sv) ≡ some sv'
  unfolding handle_command
  handle_command-again sid id action stored sv sv' known e =
      let (records, found, kept) = >>=-eq_some (records_of sid sv.results) _ known in
      let same : (stored.fingerprint == stored.fingerprint) ≡ true = ground arith in
      rw (handle_command, found, ◌>>=◌, kept, same) at e

  -- A request that was carried out and stored is sent again with the same body. Its answer is the
  -- result of the first time, with a snapshot after it, and neither the economy nor any record
  -- changes, whatever action the second message holds.
  pub handle_command_retry :
      (sid id : ℕ) (action again : Action) (fingerprint : ℕ) (stored : Records)
      (sv sv' sv'' : Server)
      → records_of sid sv.results ≡ some stored
      → record_of id stored ≡ none
      → leb sv.economy.rules.max_request_records_per_station (length stored) ≡ false
      → handle_command names sid id action fingerprint sv ≡ some sv'
      → handle_command names sid id again fingerprint sv' ≡ some sv''
      → (done : CommandOutcome × Economy) × (snap : Snapshot) × (carry_out sid action sv
          ≡ some done)
        × (sv''.economy ≡ done.1)
        × (sv''.results ≡ sv'.results)
        × (sv''.sent
            ≡ (sv'.sent
                ++ (
                  sid,
                  ServerEvent.command_result
                      (result_for id done.0.code done.0.object_id done.0.transaction_id done.1),
                )
                  ∷ [])
              ++ (sid, ServerEvent.snapshot snap) ∷ [])
  handle_command_retry sid id action again fingerprint stored sv sv' sv'' known new room first
        second =
      let (done, run, world, kept) =
        handle_command-stored sid id action fingerprint stored sv sv' known new room first in
      let result = result_for id done.0.code done.0.object_id done.0.transaction_id done.1 in
      let answer : StoredResult = record { fingerprint = fingerprint; result = result } in
      let answered = send sid (ServerEvent.command_result result) sv' in
      let replied = handle_command-again sid id again answer sv' sv'' kept second in
      let same = send_state-SameWorld names sid answered sv'' replied in
      let (snap, told) = send_state-sent sid answered sv'' replied in
      (done, snap, run, same.same_economy ∙ world, same.same_results, told)
