-- ===== src/Sim/Economy/Run.antt =====
-- Every moment of a run of bazaar_sim/economy.py: commands, ticks and the end, in any order.
use mathlib.Core.Option.{some-injective}
use mathlib.Core.Path.{subst}
use spaceport_bazzar_client.Base.{
  Bool-cases, >>=-eq_some, All, All-imp, ℕ, ◌+◌, ◌<◌, ◌≡◌, refl, sym, ◌∙◌, inl, inr, some, List, [],
  ◌∷◌, ◌++◌, arith,
}
use spaceport_bazzar_client.Domain.Bundle.{Bundle}
use spaceport_bazzar_client.Domain.Types.{ResultCode, Rules}
use spaceport_bazzar_client.Execution.Actions.{Action}
use spaceport_bazzar_client.Sim.Station.{SimStation, IsSound}
use spaceport_bazzar_client.Sim.Economy.{
  CommandOutcome, is_ok, Economy, post_advertisement, posted, post_offer, counted, execute,
  apply_each, apply, advance_tick, end_run, apply_production, new_economy,
}
use spaceport_bazzar_client.Sim.Economy.Effect.{Effect}
use spaceport_bazzar_client.Sim.Economy.Effect.Commands.{execute-Effect}
use spaceport_bazzar_client.Sim.Economy.Invariant.{IsFormed, IsValid}
use spaceport_bazzar_client.Sim.Economy.Invariant.Counting.{IsFormed-later}
use spaceport_bazzar_client.Sim.Economy.Invariant.Commands.{execute-IsValid}
use spaceport_bazzar_client.Sim.Economy.Invariant.Start.{
  stock_of, new_economy-IsValid, apply_production-IsValid,
}
use spaceport_bazzar_client.Sim.Economy.Invariant.Cleanup.{end_run-IsValid}
use spaceport_bazzar_client.Sim.Economy.Invariant.Time.{
  advance_tick-ticked, ticked-rules, ticked-IsValid,
}

-- One call from outside: a command, a batch of actions, new production figures, a tick, the end.
pub data Step (e e' : Economy) : Type 0 where
  command :
      (sid : ℕ) (action : Action) (out : CommandOutcome)
      → execute sid action e ≡ some (out, e')
      → Step e e'
  batch : (sid : ℕ) (actions : List Action) → apply sid actions e ≡ some e' → Step e e'
  tick : advance_tick e ≡ some e' → Step e e'
  production : (produce : ℕ → ℕ → ℕ) → e' ≡ apply_production produce e → Step e e'
  finish : e' ≡ end_run e → Step e e'

pub data Reach (e : Economy) : Economy → Type 0 where
  here : Reach e e
  next : {d d' : Economy} → Reach e d → Step d d' → Reach e d'

pub Effect-rules :
    (sid : ℕ) (action : Action) (e : Economy) (out : CommandOutcome) (e' : Economy)
    → Effect sid action e out e'
    → e'.rules ≡ e.rules
unfolding counted post_advertisement post_offer
Effect-rules sid action e out e' (Effect.unprocessed _ same) = rw same
Effect-rules sid action e out e' (Effect.failed _ _ same) = rw same
Effect-rules sid action e out e' (Effect.advertised _ a _ _ _ same) = rw same
Effect-rules sid action e out e' (Effect.posted_offer _ a _ _ _ same) = rw same
Effect-rules sid action e out e' (Effect.took_down _ posted _ _ _ _ same) = rw same
Effect-rules sid action e out e' (Effect.withdrew _ o _ _ _ _ _ _ same) = rw same
Effect-rules sid action e out e' (Effect.accepted _ o _ _ l writes _ same) = rw same

-- The rules of the run do not change, and they allow some health.
abbrev pub Holds : (ℕ → Bundle) → Economy → Type 0
Holds starts e = (0 < e.rules.max_health) × IsValid starts e

pub execute-Holds :
    (starts : ℕ → Bundle) (sid : ℕ) (action : Action) (e : Economy) (out : CommandOutcome)
    (e' : Economy)
    → Holds starts e
    → execute sid action e ≡ some (out, e')
    → Holds starts e'
execute-Holds starts sid action e out e' h run = (
  rw (Effect-rules sid action e out e' (execute-Effect sid action e out e' run)) h.0,
  execute-IsValid starts sid action e out e' h.1 run,
)

-- A rejection is only recorded, and the version of the world is not part of validity.
pub noted-Holds :
    (starts : ℕ → Bundle) (e : Economy) (list : List (ℕ × ResultCode)) (version : ℕ)
    → Holds starts e
    → Holds starts (record e { rejections = list; world_version = version })
noted-Holds starts e list version (m, v) = (
  m,
  record {
    sound = v.sound;
    formed =
        All-imp (IsFormed e) (IsFormed (record e { rejections = list; world_version = version }))
          e.offers
          (λ o h.
            IsFormed-later e (record e { rejections = list; world_version = version }) o
              (omega arith) refl (λ x k. k) h)
          v.formed;
    unique = v.unique;
    room = v.room;
    quota = v.quota;
  },
)

apply_each-Holds :
    (starts : ℕ → Bundle) (sid : ℕ) (actions : List Action) (e e' : Economy)
    → Holds starts e
    → apply_each sid actions e ≡ some e'
    → Holds starts e'
unfolding apply_each
apply_each-Holds starts sid [] e e' h run = subst (Holds starts) (some-injective _ _ run) h
apply_each-Holds starts sid (a ∷ actions) e e' h run =
    let ((out, d), first, rest) = >>=-eq_some (execute sid a e) _ run in
    let k = execute-Holds starts sid a e out d h first in
    elim (Bool-cases (is_ok out.code)) [
      | inl good ↦ apply_each-Holds starts sid actions d e' k (rw good at rest)
      | inr bad ↦
          apply_each-Holds starts sid actions
            (record d { rejections = d.rejections ++ (sid, out.code) ∷ [] }) e'
            (noted-Holds starts d (d.rejections ++ (sid, out.code) ∷ []) d.world_version k)
            (rw bad at rest)
    ]

pub Step-Holds :
    (starts : ℕ → Bundle) (e e' : Economy) → Holds starts e → Step e e' → Holds starts e'
unfolding apply end_run apply_production
Step-Holds starts e e' h (Step.command sid action out run) =
    execute-Holds starts sid action e out e' h run
Step-Holds starts e e' h (Step.batch sid actions run) =
    let (d, first, rest) = >>=-eq_some (apply_each sid actions e) _ run in
    subst (Holds starts) (some-injective _ _ rest) (
      noted-Holds starts d d.rejections (d.world_version + 1)
        (apply_each-Holds starts sid actions e d h first))
Step-Holds starts e e' (m, v) (Step.tick run) =
    subst (Holds starts) (some-injective _ _ (sym (advance_tick-ticked e) ∙ run))
      (rw (ticked-rules e) m, ticked-IsValid starts e v m)
Step-Holds starts e e' (m, v) (Step.production produce same) =
    rw same (m, apply_production-IsValid starts produce e v)
Step-Holds starts e e' (m, v) (Step.finish same) = rw same (m, (end_run-IsValid starts e v).0)

-- Whatever the players send and whenever the clock ticks, a valid economy stays valid.
pub Reach-IsValid :
    (starts : ℕ → Bundle) {e e' : Economy}
    → 0 < e.rules.max_health
    → IsValid starts e
    → Reach e e'
    → IsValid starts e'
Reach-IsValid starts {e} m v r = (go r).1
  where
    go : {d : Economy} → Reach e d → Holds starts d
    go here = (m, v)
    go (next r s) = Step-Holds starts _ _ (go r) s

new_economy_health :
    (stations : List SimStation) (rules : Rules) (run_id : ℕ)
    → 0 < rules.max_health
    → 0 < (new_economy stations rules run_id).rules.max_health
unfolding new_economy
new_economy_health stations rules run_id m = m

-- In every state that a new run can reach, whatever the players send and whenever the clock ticks:
-- each station's stock is its starting stock plus production and imports less consumption and
-- exports, its health is in range, and the offers and the limits are in order. The rules allow some
-- health, and the stations start sound.
pub run-IsValid :
    (stations : List SimStation) (rules : Rules) (run_id : ℕ) {e : Economy}
    → 0 < rules.max_health
    → All (λ s. IsSound rules s.inventory s) stations
    → Reach (new_economy stations rules run_id) e
    → IsValid (stock_of (new_economy stations rules run_id).stations) e
run-IsValid stations rules run_id m h r =
    let start = new_economy stations rules run_id in
    Reach-IsValid (stock_of start.stations) {e = start} (new_economy_health stations rules run_id m)
      (new_economy-IsValid stations rules run_id h) r
