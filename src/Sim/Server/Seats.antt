-- ===== src/Sim/Server/Seats.antt =====
-- Who is seated stays seated, and can be sent every snapshot (bazaar_sim/server.py).
use mathlib.Core.Option.{some-injective}
use mathlib.Core.Path.{subst}
use spaceport_bazzar_client.Base.{
  ◌==◌, nat_eq, Bool-cases, >>=-eq_some, All, All-find?, All-imp, ℕ, ◌+◌, String, ◌≡◌, inl, inr,
  some, List, [], ◌∷◌, map,
}
use spaceport_bazzar_client.Domain.Bundle.{resource_eq}
use spaceport_bazzar_client.Domain.Types.{Phase, object_eq}
use spaceport_bazzar_client.Sim.Economy.{Economy, observation_for}
use spaceport_bazzar_client.Sim.Economy.Invariant.{IsKnown}
use spaceport_bazzar_client.Sim.Server.State.{
  Seat, Server, seat_of, put_seat, records_of, outcome_told, send_state, send_each,
}
use spaceport_bazzar_client.Sim.Server.Sending.{
  SameWorld, IsSeated, IsSeated-same, send_each-SameWorld, send_each-Goes,
}

-- Everyone who is seated can be sent a snapshot.
abbrev pub AllSeated : Server → Type 0
AllSeated sv = All (λ (s : Seat). IsSeated sv s.station_id) sv.seats

module _ (P : ℕ → Type 0) where
  All-put_seat :
      (seat : Seat) (seats : List Seat)
      → P seat.station_id
      → All (λ (s : Seat). P s.station_id) seats
      → All (λ (s : Seat). P s.station_id) (put_seat seat seats)
  unfolding put_seat
  All-put_seat seat [] p h = (p, tt)
  All-put_seat seat (s ∷ seats) p h = elim (Bool-cases (s.station_id == seat.station_id)) [
    | inl same ↦ rw same (p, h.1)
    | inr other ↦ rw other (h.0, All-put_seat seat seats p h.1)
  ]

  module _ (names : ℕ → String) where
    send_state-All :
        (sid : ℕ) (sv sv' : Server)
        → send_state names sid sv ≡ some sv'
        → All (λ (s : Seat). P s.station_id) sv.seats
        → All (λ (s : Seat). P s.station_id) sv'.seats
    unfolding send_state
    send_state-All sid sv sv' e h =
        let (seat, found, e1) = >>=-eq_some (seat_of sid sv.seats) _ e in
        let (records, known, e2) = >>=-eq_some (records_of sid sv.results) _ e1 in
        let (outcome, told, e3) = >>=-eq_some (outcome_told sid sv) _ e2 in
        let (snap, shown, e4) =
          >>=-eq_some
            (observation_for names sid (seat.sequence + 1) sv.phase (map (λ r. r.1.result) records)
              outcome sv.economy)
            _ e3 in
        subst (λ (x : Server). All (λ (s : Seat). P s.station_id) x.seats) (some-injective _ _ e4)
          (All-put_seat (record seat { sequence = seat.sequence + 1 }) sv.seats
            (All-find? (λ (s : Seat). s.station_id == sid) (λ (s : Seat). P s.station_id) sv.seats
              seat h found)
            h)

    send_each-All :
        (seats : List Seat) (sv sv' : Server)
        → send_each names seats sv ≡ some sv'
        → All (λ (s : Seat). P s.station_id) sv.seats
        → All (λ (s : Seat). P s.station_id) sv'.seats
    unfolding send_each
    send_each-All [] sv sv' e h =
        subst (λ (x : Server). All (λ (s : Seat). P s.station_id) x.seats) (some-injective _ _ e) h
    send_each-All (s ∷ seats) sv sv' e h =
        let (after, first, rest) = >>=-eq_some (send_state names s.station_id sv) _ e in
        send_each-All seats after sv' rest (send_state-All s.station_id sv after first h)

module _ (names : ℕ → String) where
  -- A broadcast after a change of the economy and the phase.
  pub broadcast-Goes :
      (sv : Server)
      → AllSeated sv
      → (sv' : Server) × (send_each names sv.seats sv ≡ some sv') × SameWorld sv sv' × AllSeated sv'
  broadcast-Goes sv h =
      let (sv', run) = send_each-Goes names sv.seats sv h in
      let same = send_each-SameWorld names sv.seats sv sv' run in
      (
        sv',
        run,
        same,
        All-imp (λ (s : Seat). IsSeated sv s.station_id) (λ (s : Seat). IsSeated sv' s.station_id)
            sv'.seats (λ s k. IsSeated-same sv sv' s.station_id same k)
            (send_each-All (IsSeated sv) names sv.seats sv sv' run h),
      )

  pub AllSeated-on :
      (sv : Server) (e : Economy) (phase : Phase)
      → ((x : ℕ) → IsKnown x sv.economy.stations → IsKnown x e.stations)
      → AllSeated sv
      → AllSeated (record sv { economy = e; phase = phase })
  AllSeated-on sv e phase f h =
      All-imp (λ (s : Seat). IsSeated sv s.station_id)
        (λ (s : Seat). IsSeated (record sv { economy = e; phase = phase }) s.station_id) sv.seats
        (λ s k. record {
          seated = k.seated;
          recorded = k.recorded;
          listed = f s.station_id k.listed;
        })
        h
