-- ===== src/Policy/Targeting/Choice.antt =====
-- What holds of every candidate (bazaar_client/policy/targeting.py).
use spaceport_bazzar_client.Base.{
  ltb, ◌==◌, nat_eq, Bool-cases, keep_if, sort_by, first_max, All, All-append, All-sort_by,
  first_max-All, ℕ, ◌<◌, ◌≡◌, ◌≢◌, inl, inr, Bool, false, not, ◌&&◌, Option, none, some, List, [],
  ◌∷◌, arith,
}
use spaceport_bazzar_client.Base.Float.{Ratio}
use spaceport_bazzar_client.Domain.Bundle.{Resource, resource_eq, resources, Bundle, get}
use spaceport_bazzar_client.Domain.Types.{object_eq}
use spaceport_bazzar_client.World.Counterparties.{
  CounterpartyStats, CounterpartyModel, stations_in_play,
}
use spaceport_bazzar_client.World.Counterparties.InPlay.{IsInPlay, stations_in_play-IsInPlay}
use spaceport_bazzar_client.Policy.Reserves.{Urgency}
use spaceport_bazzar_client.Policy.Targeting.{
  Candidate, score_counterparty, is_worse, options_with, options_for, best_for, candidates_for,
  is_as_urgent, rank_counterparties,
}

-- A candidate that is worth an offer: its planet is in play, something is wanted, it is paid for with something else that is
-- in surplus, and no offer for it stands with the planet.
pub record IsApt (model : CounterpartyModel) (wanted : Resource → ℕ) (surplus : Bundle)
    (pending : ℕ → Resource → Bool) (c : Candidate) : Type 0 where
  pub known : IsInPlay model c.station_id
  pub needed : 0 < wanted c.want
  pub payable : 0 < get surplus c.give
  pub distinct : c.give ≢ c.want
  pub fresh : pending c.station_id c.want ≡ false

abbrev Fits :
    CounterpartyModel
    → Bundle
    → (ℕ → Resource → Bool)
    → Resource
    → CounterpartyStats × Resource
    → Type 0
Fits model surplus pending want (s, give) =
    IsInPlay model s.station_id
    × (0 < get surplus give)
    × (give ≢ want)
    × (pending s.station_id want ≡ false)

module _ (model : CounterpartyModel) (surplus : Bundle) (pending : ℕ → Resource → Bool)
    (want : Resource) where
  with-Fits :
      (s : CounterpartyStats) (payable : List Resource)
      → IsInPlay model s.station_id
      → All (λ r. 0 < get surplus r) payable
      → All (Fits model surplus pending want) (options_with pending want payable s)
  unfolding options_with
  with-Fits s [] p h = tt
  with-Fits s (r ∷ l) p h = elim (Bool-cases (not (r == want) && not (pending s.station_id want))) [
    | inl apt ↦ rw apt ((p, h.0, ground arith, ground arith), with-Fits s l p h.1)
    | inr inapt ↦ rw inapt (with-Fits s l p h.1)
  ]

  options_for-Fits :
      (payable : List Resource) (l : List CounterpartyStats)
      → All (λ s. IsInPlay model s.station_id) l
      → All (λ r. 0 < get surplus r) payable
      → All (Fits model surplus pending want) (options_for pending want payable l)
  unfolding options_for
  options_for-Fits payable [] p h = tt
  options_for-Fits payable (s ∷ l) p h =
      All-append (Fits model surplus pending want) (options_with pending want payable s)
        (options_for pending want payable l) (with-Fits s payable p.0 h)
        (options_for-Fits payable l p.1 h)

module _ (model : CounterpartyModel) (wanted : Resource → ℕ) (surplus : Bundle)
    (pending : ℕ → Resource → Bool) where
  best_for-IsApt :
      (preferred : Option Resource) (tick : ℕ) (payable : List Resource)
      (stations : List CounterpartyStats) (want : Resource)
      → All (λ s. IsInPlay model s.station_id) stations
      → All (λ r. 0 < get surplus r) payable
      → 0 < wanted want
      → All
          (IsApt model wanted surplus pending)
          (best_for surplus preferred tick pending payable stations want)
  unfolding best_for
  best_for-IsApt preferred tick payable stations want p h w =
      go (options_for pending want payable stations)
        (options_for-Fits model surplus pending want payable stations p h)
    where
      pick :
          (o : CounterpartyStats × Resource) (score : Option Ratio)
          → Fits model surplus pending want o
          → All (IsApt model wanted surplus pending) (elim score [
            | none ↦ []
            | some best ↦
                record { station_id = o.0.station_id; want = want; give = o.1; score = some best }
                ∷ []
          ])
      pick o none f = tt
      pick (s, give) (some best) (listed, paid, other, fresh) = (
        record { known = listed; needed = w; payable = paid; distinct = other; fresh = fresh },
        tt,
      )

      go :
          (options : List (CounterpartyStats × Resource))
          → All (Fits model surplus pending want) options
          → All (IsApt model wanted surplus pending) (elim options [
            | [] ↦ []
            | o ∷ l ↦
                let (s, give) = first_max (is_worse surplus preferred want tick) o l in
                elim (score_counterparty s want give tick) [
                  | none ↦ []
                  | some best ↦
                      record {
                        station_id = s.station_id;
                        want = want;
                        give = give;
                        score = some best;
                      }
                      ∷ []
                ]
          ])
      go [] k = tt
      go (o ∷ l) k =
          let best = first_max (is_worse surplus preferred want tick) o l in
          pick best (score_counterparty best.0 want best.1 tick) (
            first_max-All (Fits model surplus pending want) (is_worse surplus preferred want tick) o
              l k.0 k.1)

  candidates_for-IsApt :
      (preferred : Option Resource) (tick : ℕ) (payable : List Resource)
      (stations : List CounterpartyStats) (needs : List Resource)
      → All (λ s. IsInPlay model s.station_id) stations
      → All (λ r. 0 < get surplus r) payable
      → All (λ r. 0 < wanted r) needs
      → All
          (IsApt model wanted surplus pending)
          (candidates_for surplus preferred tick pending payable stations needs)
  unfolding candidates_for
  candidates_for-IsApt preferred tick payable stations [] p h k = tt
  candidates_for-IsApt preferred tick payable stations (r ∷ needs) p h k =
      All-append (IsApt model wanted surplus pending)
        (best_for surplus preferred tick pending payable stations r)
        (candidates_for surplus preferred tick pending payable stations needs)
        (best_for-IsApt preferred tick payable stations r p h k.0)
        (candidates_for-IsApt preferred tick payable stations needs p h k.1)

above_zero : (f : Resource → ℕ) → All (λ r. 0 < f r) (keep_if (λ r. ltb 0 (f r)) resources)
above_zero f = ground arith

-- Every candidate is a planet that the model knows and has not seen fail, and is for something
-- wanted, paid for with something else that is in surplus, and no
-- offer for it stands with the planet.
pub rank_counterparties-IsApt :
    (model : CounterpartyModel) (urgency : Resource → Urgency) (wanted : Resource → ℕ)
    (surplus : Bundle) (tick : ℕ) (pending : ℕ → Resource → Bool) (preferred : Option Resource)
    → All
        (IsApt model wanted surplus pending)
        (rank_counterparties model urgency wanted surplus tick pending preferred)
unfolding rank_counterparties
rank_counterparties-IsApt model urgency wanted surplus tick pending preferred =
    candidates_for-IsApt model wanted surplus pending preferred tick
      (keep_if (λ r. ltb 0 (get surplus r)) resources) (stations_in_play model)
      (sort_by (is_as_urgent urgency wanted) (keep_if (λ r. ltb 0 (wanted r)) resources))
      (stations_in_play-IsInPlay model) (above_zero (get surplus))
      (All-sort_by (λ r. 0 < wanted r) (is_as_urgent urgency wanted)
        (keep_if (λ r. ltb 0 (wanted r)) resources) (above_zero wanted))
