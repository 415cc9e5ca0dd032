-- ===== src/Sim/Server/Keeping.antt =====
-- Every handler of the server keeps the world valid (bazaar_sim/server.py).
use mathlib.Core.Option.{some-injective}
use mathlib.Core.Path.{subst}
use spaceport_bazzar_client.Base.{
  if◌then◌else◌, ◌==◌, nat_eq, Bool-cases, >>=-eq_some, length, length-append, All, ℕ, ◌+◌, ◌≤◌,
  ◌<◌, ◌≡◌, refl, ap, inl, inr, Bool, true, false, some, List, [], ◌∷◌, arith,
}
use spaceport_bazzar_client.Domain.Bundle.{resource_eq, Bundle}
use spaceport_bazzar_client.Domain.Types.{Phase, object_eq, Rules}
use spaceport_bazzar_client.Execution.Actions.{Action}
use spaceport_bazzar_client.Sim.Economy.{CommandOutcome, is_ok, Economy, execute}
use spaceport_bazzar_client.Sim.Economy.Effect.Commands.{execute-Effect}
use spaceport_bazzar_client.Sim.Economy.Run.{Effect-rules, Holds, execute-Holds, noted-Holds}
use spaceport_bazzar_client.Sim.Server.State.{
  StoredResult, Records, Server, same_phase, records_of, add_record,
}
use spaceport_bazzar_client.Sim.Server.Handlers.{carry_out}
use spaceport_bazzar_client.Sim.Server.Sending.{SameWorld}

-- The economy is valid, and no planet has more records than the rules allow.
pub record IsServing (starts : ℕ → Bundle) (sv : Server) : Type 0 where
  pub world : Holds starts sv.economy
  pub bounded : All (λ r. length r.1 ≤ sv.economy.rules.max_request_records_per_station) sv.results

pub SameWorld-IsServing :
    (starts : ℕ → Bundle) (sv sv' : Server)
    → SameWorld sv sv'
    → IsServing starts sv
    → IsServing starts sv'
SameWorld-IsServing starts sv sv' k h = record {
  world = rw k.same_economy h.world;
  bounded = rw (k.same_economy, k.same_results) h.bounded;
}

-- A world that goes on under the same rules.
pub IsServing-on :
    (starts : ℕ → Bundle) (sv : Server) (e : Economy)
    → e.rules ≡ sv.economy.rules
    → Holds starts e
    → IsServing starts sv
    → IsServing starts (record sv { economy = e })
IsServing-on starts sv e same holds h = record { world = holds; bounded = rw same h.bounded }

pub add_record-bounded :
    (bound sid id : ℕ) (stored : StoredResult) (results : List (ℕ × Records)) (records : Records)
    → records_of sid results ≡ some records
    → length records < bound
    → All (λ r. length r.1 ≤ bound) results
    → All (λ r. length r.1 ≤ bound) (add_record sid id stored results)
unfolding add_record records_of
add_record-bounded bound sid id stored [] records found room h = tt
add_record-bounded bound sid id stored ((j, known) ∷ results) records found room h =
    elim (Bool-cases (j == sid)) [
      | inl same ↦
          let mine : known ≡ records = some-injective _ _ (rw same at found) in
          rw same (
            omega (
              arith,
              length-append {0} known ((id, stored) ∷ []),
              ap (λ (r : Records). length r) mine,
            ),
            h.1,
          )
      | inr other ↦
          rw other (
            h.0,
            add_record-bounded bound sid id stored results records (rw other at found) room h.1,
          )
    ]

versioned-Holds :
    (starts : ℕ → Bundle) (rules : Rules) (e : Economy) (good : Bool)
    → e.rules ≡ rules
    → Holds starts e
    → let e' = if good then record e { world_version = e.world_version + 1 } else e in
      (e'.rules ≡ rules) × Holds starts e'
versioned-Holds starts rules e true same h =
    (same, noted-Holds starts e e.rejections (e.world_version + 1) h)
versioned-Holds starts rules e false same h = (same, h)

pub carry_out-Holds :
    (starts : ℕ → Bundle) (sid : ℕ) (action : Action) (sv : Server)
    (done : CommandOutcome × Economy)
    → Holds starts sv.economy
    → carry_out sid action sv ≡ some done
    → (done.1.rules ≡ sv.economy.rules) × Holds starts done.1
unfolding carry_out
carry_out-Holds starts sid action sv done h e =
    elim (Bool-cases (same_phase sv.phase Phase.running)) [
      | inr halted ↦
          subst (λ d. (d.1.rules ≡ sv.economy.rules) × Holds starts d.1)
            (some-injective _ _ (rw halted at e)) (refl, h)
      | inl going ↦
          let (answer, run, rest) = >>=-eq_some (execute sid action sv.economy) _ (rw going at e) in
          let kept = execute-Holds starts sid action sv.economy answer.0 answer.1 h run in
          let same =
            Effect-rules sid action sv.economy answer.0 answer.1
              (execute-Effect sid action sv.economy answer.0 answer.1 run) in
          subst (λ d. (d.1.rules ≡ sv.economy.rules) × Holds starts d.1) (some-injective _ _ rest)
            (versioned-Holds starts sv.economy.rules answer.1 (is_ok answer.0.code) same kept)
    ]
