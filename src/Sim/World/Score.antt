-- ===== src/Sim/World/Score.antt =====
-- The score of a run (bazaar_sim/world.py), and what the players are told of it.
use spaceport_bazzar_client.Base.{
  if◌then◌else◌, ◌==◌, nat_eq, Bool-cases, Option-cases, ◌>>=◌, length, keep_if, any, sum_by, All,
  ℕ, ◌+◌, ◌-◌, ◌≡◌, refl, sym, ap, inl, inr, Bool, not, Option, none, some, List, [], ◌∷◌, arith,
}
use spaceport_bazzar_client.Domain.Bundle.{resource_eq, total}
use spaceport_bazzar_client.Domain.Types.{object_eq, PlayerOutcome}
use spaceport_bazzar_client.Sim.Station.{SimStation, is_some}
use spaceport_bazzar_client.Sim.Economy.{Economy, station_of, outcome_for}
use spaceport_bazzar_client.Sim.Economy.Invariant.{IsKnown}
use spaceport_bazzar_client.Sim.Economy.Total.{known-Goes}

pub record Score : Type 0 where
  pub planets : ℕ
  pub collective_success : Bool
  pub survivors : ℕ
  pub world_alive_ticks : ℕ
  pub shortage_ticks : ℕ
  pub unmet_units : ℕ
  pub subject_survived : Option Bool
  pub subject_health : Option ℕ

-- `failed_at.get(sid, ticks)`
abbrev pub alive_ticks : List (ℕ × ℕ) → ℕ → ℕ → ℕ
alive_ticks [] ticks sid = ticks
alive_ticks ((j, t) ∷ rest) ticks sid = if j == sid then t else alive_ticks rest ticks sid

-- The failures that the stations hold; one without a date, which the sum of the score would raise
-- on, raises here.
unfoldable pub failures_of : List SimStation → Option (List (ℕ × ℕ))
failures_of [] = some []
failures_of (s ∷ rest) = do
  others ← failures_of rest
  if s.failed_once
      then (s.first_failure_tick >>= λ tick. some ((s.station_id, tick) ∷ others))
      else some others

-- `score_economy` without a subject, with the failures given
unfoldable pub score_of : Economy → ℕ → List (ℕ × ℕ) → Score
score_of e ticks failed_at = record {
  planets = length e.stations;
  collective_success = length failed_at == 0;
  survivors = length e.stations - length failed_at;
  world_alive_ticks =
      sum_by (λ (s : SimStation). alive_ticks failed_at ticks s.station_id) e.stations;
  shortage_ticks = sum_by (λ (s : SimStation). s.shortage_ticks) e.stations;
  unmet_units = sum_by (λ (s : SimStation). total s.unmet_total) e.stations;
  subject_survived = none;
  subject_health = none;
}

-- `score_economy`; a subject that is no station is a `KeyError`
unfoldable pub score_economy : Economy → ℕ → Option ℕ → Option (List (ℕ × ℕ)) → Option Score
unfolding score_of failures_of
score_economy e ticks subject given = do
  failed_at ← elim given [ none ↦ failures_of e.stations | some f ↦ some f ]
  let score = score_of e ticks failed_at
  elim subject [
    | none ↦ some score
    | some sid ↦ station_of sid e.stations >>= λ (s : SimStation). some (record score {
      subject_survived = some (not (any (λ (f : ℕ × ℕ). f.0 == sid) failed_at));
      subject_health = some s.health;
    })
  ]

-- A station has a date of failure exactly if it has failed.
abbrev pub AllDated : List SimStation → Type 0
AllDated = All (λ s. is_some s.first_failure_tick ≡ s.failed_once)

-- The stations that have not failed.
abbrev pub alive : List SimStation → List SimStation
alive = keep_if (λ (s : SimStation). not s.failed_once)

failures_of-counts :
    (l : List SimStation)
    → AllDated l
    → (f : List (ℕ × ℕ)) × (failures_of l ≡ some f)
      × (length f + length (alive l) ≡ length l)
      × ((length f == 0) ≡ not (any (λ s. s.failed_once) l))
unfolding failures_of
failures_of-counts [] h = ([], refl, omega arith, refl)
failures_of-counts (s ∷ l) (dated, h) =
    let (f, run, counts, none_failed) = failures_of-counts l h in
    elim (Bool-cases s.failed_once) [
      | inr well ↦ (
        f,
        rw (failures_of, run, ◌>>=◌, well) refl,
        rw well (omega (arith, counts)),
        rw well none_failed,
      )
      | inl lost ↦ elim (Option-cases s.first_failure_tick) [
        | inl undated ↦ absurd (ground (arith, dated, undated, lost))
        | inr (tick, found) ↦ (
          (s.station_id, tick) ∷ f,
          rw (failures_of, run, ◌>>=◌, lost, found) refl,
          rw lost (omega (arith, counts)),
          rw lost (ground arith),
        )
      ]
    ]

-- The score of a run counts as survivors the planets that have not failed, and its collective
-- success is what each player is told, if the failed planets are those with a date of failure.
pub score_economy-told :
    (e : Economy) (ticks sid : ℕ) (aborted : Bool)
    → AllDated e.stations
    → IsKnown sid e.stations
    → (score : Score) × (out : PlayerOutcome) × (score_economy e ticks none none ≡ some score)
      × (outcome_for sid aborted e ≡ some out)
      × (out.collective_success ≡ some score.collective_success)
      × (score.survivors ≡ length (alive e.stations))
unfolding score_economy score_of outcome_for
score_economy-told e ticks sid aborted dated k =
    let (f, run, counts, none_failed) = failures_of-counts e.stations dated in
    let (station, found) = known-Goes sid e.stations k in
    (
      score_of e ticks f,
      record {
        collective_success = some (not (any (λ s. s.failed_once) e.stations));
        self_failed = station.failed_once;
        aborted = aborted;
      },
      rw (score_economy, run, ◌>>=◌) refl,
      rw (outcome_for, found, ◌>>=◌) refl,
      ap some (sym none_failed),
      omega (arith, counts),
    )
