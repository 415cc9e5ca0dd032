-- ===== src/Sim/Server/Finish.antt =====
-- A run of the server comes to its end (bazaar_sim/server.py).
use spaceport_bazzar_client.Base.{
  Bool-cases, Option-cases, ◌>>=◌, ℕ, zero, suc, ◌+◌, ◌≤◌, ◌<◌, String, ◌≡◌, refl, ap, ◌∙◌, ◌⊎◌,
  inl, inr, true, false, none, some, arith,
}
use spaceport_bazzar_client.Domain.Types.{Phase, Rules}
use spaceport_bazzar_client.Sim.Economy.{Economy, is_finished, end_run, apply_production}
use spaceport_bazzar_client.Sim.Economy.Invariant.{IsKnown}
use spaceport_bazzar_client.Sim.Economy.Invariant.Time.{
  ticked, advance_tick-ticked, ticked-rules, ticked-IsKnown, ticked-tick,
}
use spaceport_bazzar_client.Sim.Economy.Invariant.Start.{apply_production-IsKnown}
use spaceport_bazzar_client.Sim.Server.State.{Server, same_phase}
use spaceport_bazzar_client.Sim.Server.Handlers.{ticked_world, advance, tick_for}
use spaceport_bazzar_client.Sim.Server.Seats.{AllSeated, broadcast-Goes, AllSeated-on}

-- The world after a tick of the server.
abbrev next_world : Server → Economy
next_world sv = elim sv.production [
  | none ↦ ticked sv.economy
  | some produce ↦ apply_production produce (ticked sv.economy)
]

ticked_world-next_world : (sv : Server) → ticked_world sv ≡ some (next_world sv)
unfolding ticked_world
ticked_world-next_world sv = rw (advance_tick-ticked sv.economy, ◌>>=◌) refl

produced-tick : (produce : ℕ → ℕ → ℕ) (e : Economy) → (apply_production produce e).tick ≡ e.tick
unfolding apply_production
produced-tick produce e = refl

produced-rules : (produce : ℕ → ℕ → ℕ) (e : Economy) → (apply_production produce e).rules ≡ e.rules
unfolding apply_production
produced-rules produce e = refl

next_world-clock :
    (sv : Server)
    → ((next_world sv).tick ≡ sv.economy.tick + 1) × ((next_world sv).rules ≡ sv.economy.rules)
next_world-clock sv = elim (Option-cases sv.production) [
  | inl idle ↦ rw idle (ticked-tick sv.economy, ticked-rules sv.economy)
  | inr (produce, set) ↦ rw set (
    produced-tick produce (ticked sv.economy) ∙ ticked-tick sv.economy,
    produced-rules produce (ticked sv.economy) ∙ ticked-rules sv.economy,
  )
]

next_world-IsKnown :
    (x : ℕ) (sv : Server) → IsKnown x sv.economy.stations → IsKnown x (next_world sv).stations
next_world-IsKnown x sv k = elim (Option-cases sv.production) [
  | inl idle ↦ rw idle (ticked-IsKnown x sv.economy k)
  | inr (produce, set) ↦
      rw set
        (apply_production-IsKnown produce x (ticked sv.economy) (ticked-IsKnown x sv.economy k))
]

end_run-stations : (e : Economy) → (end_run e).stations ≡ e.stations
unfolding end_run
end_run-stations e = refl

-- The server in the middle of a run.
pub record IsOnCourse (sv : Server) : Type 0 where
  pub running : sv.phase ≡ Phase.running
  pub all_seated : AllSeated sv

module _ (names : ℕ → String) where
  -- One tick: the run ends, or it goes on with the next world.
  advance-Goes :
      (sv : Server)
      → IsOnCourse sv
      → (sv' : Server) × (advance names sv ≡ some sv')
        × ((sv'.phase ≡ Phase.finished)
            ⊎ ((is_finished (next_world sv) ≡ false)
                × IsOnCourse sv'
                × (sv'.economy ≡ next_world sv)))
  unfolding advance
  advance-Goes sv h =
      let world = next_world sv in
      let going : same_phase sv.phase Phase.running ≡ true =
        ap (λ p. same_phase p Phase.running) h.running in
      elim (Bool-cases (is_finished world)) [
        | inr on ↦
            let (sv', run, same, seats) =
              broadcast-Goes names (record sv { economy = world })
                (AllSeated-on names sv world sv.phase (λ x. next_world-IsKnown x sv)
                  h.all_seated) in
            (
              sv',
              rw (advance, going, ticked_world-next_world sv, ◌>>=◌, on) run,
              inr (
                on,
                record { running = same.same_phases ∙ h.running; all_seated = seats },
                same.same_economy,
              ),
            )
        | inl over ↦
            let (sv', run, same, seats) =
              broadcast-Goes names (record sv { economy = end_run world; phase = Phase.finished })
                (AllSeated-on names sv (end_run world) Phase.finished
                  (λ x k. rw (end_run-stations world) (next_world-IsKnown x sv k)) h.all_seated) in
            (
              sv',
              rw (advance, going, ticked_world-next_world sv, ◌>>=◌, over) run,
              inl same.same_phases,
            )
      ]

  tick_for-stopped :
      (n : ℕ) (sv : Server) → sv.phase ≡ Phase.finished → tick_for names n sv ≡ some sv
  unfolding tick_for
  tick_for-stopped zero sv h = refl
  tick_for-stopped (suc n) sv h =
      let halted : same_phase sv.phase Phase.running ≡ false =
        ap (λ p. same_phase p Phase.running) h in
      rw (tick_for, halted) refl

  -- A running server whose seats are taken by planets of the roster finishes its run within the
  -- ticks that are left of its duration, of which there is at least one, and no tick raises.
  pub tick_for_finishes :
      (n : ℕ) (sv : Server)
      → IsOnCourse sv
      → sv.economy.rules.duration_ticks ≤ sv.economy.tick + n
      → 0 < n
      → (sv' : Server) × (tick_for names n sv ≡ some sv') × (sv'.phase ≡ Phase.finished)
  unfolding tick_for is_finished
  tick_for_finishes zero sv h left some_left = absurd (omega (arith, some_left))
  tick_for_finishes (suc n) sv h left some_left =
      let (after, run, outcome) = advance-Goes sv h in
      let going : same_phase sv.phase Phase.running ≡ true =
        ap (λ p. same_phase p Phase.running) h.running in
      elim outcome [
        | inl over ↦ (after, rw (tick_for, going, run, ◌>>=◌) (tick_for-stopped n after over), over)
        | inr (on, course, world) ↦
            let (clock, rules) = next_world-clock sv in
            let lasts = ap (λ (r : Rules). r.duration_ticks) rules in
            let ahead : (next_world sv).tick < (next_world sv).rules.duration_ticks =
              ground arith in
            let (last, rest, done) =
              tick_for_finishes n after course (rw world (omega (arith, clock, lasts, left)))
                (omega (arith, clock, lasts, left, ahead)) in
            (last, rw (tick_for, going, run, ◌>>=◌) rest, done)
      ]
