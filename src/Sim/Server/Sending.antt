-- ===== src/Sim/Server/Sending.antt =====
-- Sending leaves the world alone, and never fails for a planet that is seated
-- (bazaar_sim/server.py).
use mathlib.Core.Option.{some-injective}
use mathlib.Core.Path.{subst}
use spaceport_bazzar_client.Base.{
  ◌==◌, nat_eq, Bool-cases, Option-cases, ◌>>=◌, >>=-eq_some, All, All-imp, ℕ, ◌+◌, String, ◌≡◌,
  refl, ◌∙◌, ◌≢◌, inl, inr, Option, none, some, List, [], ◌∷◌, map, arith,
}
use spaceport_bazzar_client.Domain.Types.{Phase, object_eq, PlayerOutcome}
use spaceport_bazzar_client.Sim.Economy.{observation_for, outcome_for}
use spaceport_bazzar_client.Sim.Economy.Total.{known-Goes}
use spaceport_bazzar_client.Sim.Economy.Invariant.{IsKnown}
use spaceport_bazzar_client.Sim.Server.State.{
  Seat, Server, same_phase, seat_of, put_seat, records_of, outcome_told, send_state, send_each,
}

-- The economy, the phase and the records are as they were, and so is who is seated.
pub record SameWorld (sv sv' : Server) : Type 0 where
  pub same_economy : sv'.economy ≡ sv.economy
  pub same_phases : sv'.phase ≡ sv.phase
  pub same_results : sv'.results ≡ sv.results
  pub same_production : sv'.production ≡ sv.production
  pub still_seated : (x : ℕ) → seat_of x sv.seats ≢ none → seat_of x sv'.seats ≢ none

SameWorld-refl : (sv : Server) → SameWorld sv sv
SameWorld-refl sv = record {
  same_economy = refl;
  same_phases = refl;
  same_results = refl;
  same_production = refl;
  still_seated = λ x h. h;
}

SameWorld-trans : (a b c : Server) → SameWorld a b → SameWorld b c → SameWorld a c
SameWorld-trans a b c h k = record {
  same_economy = k.same_economy ∙ h.same_economy;
  same_phases = k.same_phases ∙ h.same_phases;
  same_results = k.same_results ∙ h.same_results;
  same_production = k.same_production ∙ h.same_production;
  still_seated = λ x p. k.still_seated x (h.still_seated x p);
}

seat_of-put_seat :
    (x : ℕ) (seat : Seat) (seats : List Seat)
    → seat_of x seats ≢ none
    → seat_of x (put_seat seat seats) ≢ none
unfolding put_seat
seat_of-put_seat x seat [] h = absurd (h refl)
seat_of-put_seat x seat (s ∷ seats) h = elim (Bool-cases (s.station_id == x)) [
  | inl same ↦ ground arith
  | inr other ↦ let later = seat_of-put_seat x seat seats (rw other at h) in ground arith
]

seat_of-found :
    (x : ℕ) (seats : List Seat) → seat_of x seats ≢ none → (s : Seat) × (seat_of x seats ≡ some s)
seat_of-found x seats h = elim (Option-cases (seat_of x seats)) [
  | inl nothing ↦ absurd (h nothing)
  | inr found ↦ found
]

-- A planet to which a snapshot can be sent.
pub record IsSeated (sv : Server) (sid : ℕ) : Type 0 where
  pub seated : seat_of sid sv.seats ≢ none
  pub recorded : records_of sid sv.results ≢ none
  pub listed : IsKnown sid sv.economy.stations

pub IsSeated-same :
    (sv sv' : Server) (sid : ℕ) → SameWorld sv sv' → IsSeated sv sid → IsSeated sv' sid
IsSeated-same sv sv' sid k h = record {
  seated = k.still_seated sid h.seated;
  recorded = rw k.same_results h.recorded;
  listed = rw k.same_economy h.listed;
}

module _ (names : ℕ → String) where
  pub send_state-SameWorld :
      (sid : ℕ) (sv sv' : Server) → send_state names sid sv ≡ some sv' → SameWorld sv sv'
  unfolding send_state
  send_state-SameWorld sid sv sv' e =
      let (seat, found, e1) = >>=-eq_some (seat_of sid sv.seats) _ e in
      let (records, known, e2) = >>=-eq_some (records_of sid sv.results) _ e1 in
      let (outcome, told, e3) = >>=-eq_some (outcome_told sid sv) _ e2 in
      let (snap, shown, e4) =
        >>=-eq_some
          (observation_for names sid (seat.sequence + 1) sv.phase (map (λ r. r.1.result) records)
            outcome sv.economy)
          _ e3 in
      subst (SameWorld sv) (some-injective _ _ e4) (record {
        same_economy = refl;
        same_phases = refl;
        same_results = refl;
        same_production = refl;
        still_seated =
            λ x. seat_of-put_seat x (record seat { sequence = seat.sequence + 1 }) sv.seats;
      })

  pub send_each-SameWorld :
      (seats : List Seat) (sv sv' : Server) → send_each names seats sv ≡ some sv' → SameWorld sv sv'
  unfolding send_each
  send_each-SameWorld [] sv sv' e = subst (SameWorld sv) (some-injective _ _ e) (SameWorld-refl sv)
  send_each-SameWorld (s ∷ seats) sv sv' e =
      let (after, first, rest) = >>=-eq_some (send_state names s.station_id sv) _ e in
      SameWorld-trans sv after sv' (send_state-SameWorld s.station_id sv after first)
        (send_each-SameWorld seats after sv' rest)

  outcome_told-Goes :
      (sid : ℕ) (sv : Server)
      → IsKnown sid sv.economy.stations
      → (o : Option PlayerOutcome) × (outcome_told sid sv ≡ some o)
  unfolding outcome_for
  outcome_told-Goes sid sv h = elim (Bool-cases (same_phase sv.phase Phase.finished)) [
    | inr going ↦ (none, rw going refl)
    | inl over ↦
        let (s, found) = known-Goes sid sv.economy.stations h in
        rw (over, outcome_for, found, ◌>>=◌) (_, refl)
  ]

  pub send_state-Goes :
      (sid : ℕ) (sv : Server)
      → IsSeated sv sid
      → (sv' : Server) × (send_state names sid sv ≡ some sv')
  unfolding send_state observation_for
  send_state-Goes sid sv h =
      let (seat, found) = seat_of-found sid sv.seats h.seated in
      let (station, known) = known-Goes sid sv.economy.stations h.listed in
      let (outcome, told) = outcome_told-Goes sid sv h.listed in
      elim (Option-cases (records_of sid sv.results)) [
        | inl nothing ↦ absurd (h.recorded nothing)
        | inr (records, kept) ↦
            rw (send_state, found, kept, ◌>>=◌, told, observation_for, known, ◌>>=◌) (_, refl)
      ]

  pub send_each-Goes :
      (seats : List Seat) (sv : Server)
      → All (λ s. IsSeated sv s.station_id) seats
      → (sv' : Server) × (send_each names seats sv ≡ some sv')
  unfolding send_each
  send_each-Goes [] sv h = (sv, refl)
  send_each-Goes (s ∷ seats) sv h =
      let (after, first) = send_state-Goes s.station_id sv h.0 in
      let (last, rest) = send_each-Goes seats after (
        All-imp (λ t. IsSeated sv t.station_id) (λ t. IsSeated after t.station_id) seats
          (λ t k.
            IsSeated-same sv after t.station_id (send_state-SameWorld s.station_id sv after first)
              k)
          h.1) in
      (last, rw (first, send_each, ◌>>=◌, rest) refl)
