-- ===== src/Sim/World/Survival.antt =====
-- A run of the world never fails, and its economy stays valid (bazaar_sim/world.py).
use spaceport_bazzar_client.Base.{
  ◌==◌, nat_eq, Bool-cases, ◌>>=◌, All, All-imp, ℕ, zero, suc, ◌+◌, String, ◌≡◌, refl, inl, inr,
  ◌||◌, Option, none, some, List, [], ◌∷◌, ◌++◌, arith,
}
use spaceport_bazzar_client.Domain.Bundle.{resource_eq, Bundle}
use spaceport_bazzar_client.Domain.Types.{Phase, ResultCode, object_eq, Snapshot}
use spaceport_bazzar_client.Execution.Actions.{Action}
use spaceport_bazzar_client.Sim.Economy.{
  CommandOutcome, is_ok, Economy, post_advertisement, post_offer, counted, execute, apply_each,
  apply, set_production, apply_production, observation_for, observe_next,
}
use spaceport_bazzar_client.Sim.Economy.Trade.{settlement_known}
use spaceport_bazzar_client.Sim.Economy.Effect.{Effect}
use spaceport_bazzar_client.Sim.Economy.Effect.Commands.{execute-Effect}
use spaceport_bazzar_client.Sim.Economy.Total.{known-Goes, execute-Goes}
use spaceport_bazzar_client.Sim.Economy.Invariant.{IsKnown, IsFormed, Unique}
use spaceport_bazzar_client.Sim.Economy.Invariant.Start.{apply_production-IsKnown}
use spaceport_bazzar_client.Sim.Economy.Invariant.Time.{ticked, advance_tick-ticked, ticked-IsKnown}
use spaceport_bazzar_client.Sim.Economy.Run.{Step, Holds, execute-Holds, noted-Holds, Step-Holds}
use spaceport_bazzar_client.Sim.Economy.Invariant.Counting.{IsFormed-later}
use spaceport_bazzar_client.Sim.Economy.Invariant.Offers.{Unique-keep_if}
use spaceport_bazzar_client.Sim.World.{
  note_failures, WorldState, act_once, play_each, run_tick, run_ticks,
}

-- The economy is valid, and the planets of the roster are its stations.
abbrev pub Playable : (ℕ → Bundle) → (ℕ → Type 0) → Economy → Type 0
Playable starts planets e = Holds starts e × ((x : ℕ) → planets x → IsKnown x e.stations)

Effect-IsKnown :
    (x sid : ℕ) (action : Action) (e : Economy) (out : CommandOutcome) (e' : Economy)
    → Effect sid action e out e'
    → IsKnown x e.stations
    → IsKnown x e'.stations
unfolding counted post_advertisement post_offer
Effect-IsKnown x sid action e out e' (Effect.unprocessed _ same) k = rw same k
Effect-IsKnown x sid action e out e' (Effect.failed _ _ same) k = rw same k
Effect-IsKnown x sid action e out e' (Effect.advertised _ a _ _ _ same) k = rw same k
Effect-IsKnown x sid action e out e' (Effect.posted_offer _ a _ _ _ same) k = rw same k
Effect-IsKnown x sid action e out e' (Effect.took_down _ posted _ _ _ _ same) k = rw same k
Effect-IsKnown x sid action e out e' (Effect.withdrew _ o _ _ _ _ _ _ same) k = rw same k
Effect-IsKnown x sid action e out e' (Effect.accepted _ o _ _ l writes _ same) k =
    rw same (settlement_known o x e.stations writes k)

-- Playable, as a planet sees it through a command of its own.
execute-Playable :
    (starts : ℕ → Bundle) (planets : ℕ → Type 0) (sid : ℕ) (action : Action) (e : Economy)
    (out : CommandOutcome) (e' : Economy)
    → Playable starts planets e
    → execute sid action e ≡ some (out, e')
    → Playable starts planets e'
execute-Playable starts planets sid action e out e' (h, known) run = (
  execute-Holds starts sid action e out e' h run,
  λ x p. Effect-IsKnown x sid action e out e' (execute-Effect sid action e out e' run) (known x p),
)

noted-Playable :
    (starts : ℕ → Bundle) (planets : ℕ → Type 0) (e : Economy) (list : List (ℕ × ResultCode))
    (version : ℕ)
    → Playable starts planets e
    → Playable starts planets (record e { rejections = list; world_version = version })
noted-Playable starts planets e list version (h, known) =
    (noted-Holds starts e list version h, known)

apply_each-Goes :
    (starts : ℕ → Bundle) (planets : ℕ → Type 0) (sid : ℕ) (actions : List Action) (e : Economy)
    → Playable starts planets e
    → IsKnown sid e.stations
    → (e' : Economy) × (apply_each sid actions e ≡ some e') × Playable starts planets e'
unfolding apply_each
apply_each-Goes starts planets sid [] e h k = (e, refl, h)
apply_each-Goes starts planets sid (a ∷ actions) e h k =
    let ((out, d), run) = execute-Goes starts sid a e h.0.1 k in
    let kept = execute-Playable starts planets sid a e out d h run in
    let known = Effect-IsKnown sid sid a e out d (execute-Effect sid a e out d run) k in
    elim (Bool-cases (is_ok out.code)) [
      | inl good ↦
          let (e', rest, last) = apply_each-Goes starts planets sid actions d kept known in
          (e', rw (run, apply_each, ◌>>=◌, good) rest, last)
      | inr bad ↦
          let noted = record d { rejections = d.rejections ++ (sid, out.code) ∷ [] } in
          let (e', rest, last) =
            apply_each-Goes starts planets sid actions noted
              (noted-Playable starts planets d (d.rejections ++ (sid, out.code) ∷ [])
                d.world_version kept)
              known in
          (e', rw (run, apply_each, ◌>>=◌, bad) rest, last)
    ]

apply-Goes :
    (starts : ℕ → Bundle) (planets : ℕ → Type 0) (sid : ℕ) (actions : List Action) (e : Economy)
    → Playable starts planets e
    → IsKnown sid e.stations
    → (e' : Economy) × (apply sid actions e ≡ some e') × Playable starts planets e'
unfolding apply
apply-Goes starts planets sid actions e h k =
    let (d, run, kept) = apply_each-Goes starts planets sid actions e h k in
    (
      record d { world_version = d.world_version + 1 },
      rw (apply, run, ◌>>=◌) refl,
      noted-Playable starts planets d d.rejections (d.world_version + 1) kept,
    )

sequenced-Holds :
    (starts : ℕ → Bundle) (e : Economy)
    → Holds starts e
    → Holds starts (record e { sequence = e.sequence + 1 })
sequenced-Holds starts e (m, v) = (
  m,
  record {
    sound = v.sound;
    formed =
        All-imp (IsFormed e) (IsFormed (record e { sequence = e.sequence + 1 })) e.offers
          (λ o h.
            IsFormed-later e (record e { sequence = e.sequence + 1 }) o (omega arith) refl
              (λ x k. k) h)
          v.formed;
    unique = v.unique;
    room = v.room;
    quota = v.quota;
  },
)

-- What a planet is shown counts the snapshots, and does nothing else.
observe_next-Goes :
    (names : ℕ → String) (sid : ℕ) (e : Economy)
    → IsKnown sid e.stations
    → Unique e.offers
    → (snap : Snapshot) × (observe_next names sid Phase.running [] none e
        ≡ some (snap, record e { sequence = e.sequence + 1 }))
      × Unique snap.offers
unfolding observe_next observation_for
observe_next-Goes names sid e k distinct =
    let (station, found) = known-Goes sid e.stations k in
    rw (observe_next, observation_for, found, ◌>>=◌)
      (
        _,
        refl,
        Unique-keep_if (λ o. sid == o.proposer_id || sid == o.recipient_id) e.offers distinct,
      )

set_production-Playable :
    (starts : ℕ → Bundle) (planets : ℕ → Type 0) (produce : ℕ → ℕ) (e : Economy)
    → Playable starts planets e
    → Playable starts planets (record e { stations = set_production produce 0 e.stations })
unfolding apply_production
set_production-Playable starts planets produce e (h, known) = (
  Step-Holds starts e (apply_production (λ t. produce) e) h (Step.production (λ t. produce) refl),
  λ x p. apply_production-IsKnown (λ t. produce) x e (known x p),
)

ticked-Playable :
    (starts : ℕ → Bundle) (planets : ℕ → Type 0) (e : Economy)
    → Playable starts planets e
    → Playable starts planets (ticked e)
ticked-Playable starts planets e (h, known) = (
  Step-Holds starts e (ticked e) h (Step.tick (advance_tick-ticked e)),
  λ x p. ticked-IsKnown x e (known x p),
)

module _ {ℓ} {P : Type ℓ} (names : ℕ → String) (act : P → Snapshot → Option (List Action × P))
    (acts : (p : P) (s : Snapshot) → Unique s.offers → (r : List Action × P) × (act p s ≡ some r))
    (starts : ℕ → Bundle) (planets : ℕ → Type 0) where
  act_once-Goes :
      (sid : ℕ) (player : P) (e : Economy)
      → Playable starts planets e
      → planets sid
      → (res : P × Economy) × (act_once names act sid player e ≡ some res)
        × Playable starts planets res.1
  unfolding act_once
  act_once-Goes sid player e h p =
      let (snap, seen, distinct) = observe_next-Goes names sid e (h.1 sid p) h.0.1.unique in
      let ((actions, later), moved) = acts player snap distinct in
      let counted_on = record e { sequence = e.sequence + 1 } in
      let (after, run, kept) =
        apply-Goes starts planets sid actions counted_on (sequenced-Holds starts e h.0, h.1)
          (h.1 sid p) in
      ((later, after), rw (act_once, seen, ◌>>=◌, moved, ◌>>=◌, run, ◌>>=◌) refl, kept)

  play_each-Goes :
      (roster : List (ℕ × P)) (e : Economy)
      → Playable starts planets e
      → All (λ s. planets s.0) roster
      → (res : List (ℕ × P) × Economy) × (play_each names act roster e ≡ some res)
        × Playable starts planets res.1
        × All (λ s. planets s.0) res.0
  unfolding play_each
  play_each-Goes [] e h ps = (([], e), refl, h, tt)
  play_each-Goes ((sid, player) ∷ rest) e h ps =
      let (station, found) = known-Goes sid e.stations (h.1 sid ps.0) in
      elim (Bool-cases station.failed_once) [
        | inl lost ↦
            let ((others, last), run, kept, still) = play_each-Goes rest e h ps.1 in
            (
              ((sid, player) ∷ others, last),
              rw (play_each, found, ◌>>=◌, lost, ◌>>=◌, run, ◌>>=◌) refl,
              kept,
              (ps.0, still),
            )
        | inr alive ↦
            let ((later, after), moved, on) = act_once-Goes sid player e h ps.0 in
            let ((others, last), run, kept, still) = play_each-Goes rest after on ps.1 in
            (
              ((sid, later) ∷ others, last),
              rw (play_each, found, ◌>>=◌, alive, moved, ◌>>=◌, run, ◌>>=◌) refl,
              kept,
              (ps.0, still),
            )
      ]

  -- A moment of the world: playable, and the roster is of its planets.
  abbrev InPlay : WorldState P → Type 0
  InPlay w = Playable starts planets w.economy × All (λ s. planets s.0) w.roster

  run_tick-Goes :
      (produce : ℕ → ℕ → ℕ) (tick : ℕ) (w : WorldState P)
      → InPlay w
      → (next : WorldState P) × (run_tick names act produce tick w ≡ some next) × InPlay next
  unfolding run_tick
  run_tick-Goes produce tick w (h, ps) =
      let stocked = record w.economy {
        stations = set_production (produce tick) 0 w.economy.stations;
      } in
      let ((later, played), run, kept, still) =
        play_each-Goes w.roster stocked
          (set_production-Playable starts planets (produce tick) w.economy h) ps in
      (
        record {
          roster = later;
          economy = ticked played;
          failed_at = note_failures (ticked played).tick (ticked played).stations w.failed_at;
        },
        rw (run_tick, run, ◌>>=◌, advance_tick-ticked played, ◌>>=◌) refl,
        (ticked-Playable starts planets played kept, still),
      )

  pub run_ticks-Goes :
      (produce : ℕ → ℕ → ℕ) (n tick : ℕ) (w : WorldState P)
      → InPlay w
      → (last : WorldState P) × (run_ticks names act produce n tick w ≡ some last) × InPlay last
  unfolding run_ticks
  run_ticks-Goes produce zero tick w h = (w, refl, h)
  run_ticks-Goes produce (suc n) tick w h =
      let (next, run, kept) = run_tick-Goes produce tick w h in
      let (last, rest, done) = run_ticks-Goes produce n (tick + 1) next kept in
      (last, rw (run_ticks, run, ◌>>=◌) rest, done)
