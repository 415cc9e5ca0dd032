-- ===== src/Policy/Reserves/Bounds.antt =====
-- Bounds of the reserve and of the urgency (bazaar_client/policy/reserves.py).
use native.Mathlib.Nat.{le-add_right}
use spaceport_bazzar_client.Base.{
  Option-cases, ℕ, ◌+◌, ◌*◌, ◌≤◌, min, ◌≡◌, inl, inr, Option, none, some, arith,
}
use spaceport_bazzar_client.Domain.Bundle.{Resource, Bundle, get}
use spaceport_bazzar_client.Domain.Bundle.Laws.{get-bundle_of, get-saturating_sub}
use spaceport_bazzar_client.Domain.Types.{Rules, StationObservation}
use spaceport_bazzar_client.Policy.Memory.{PolicyMemory, median_round_trip}
use spaceport_bazzar_client.Policy.Reserves.{
  calm, level, safety_ticks, buffer, saved_units, compute_reserve, compute_urgency,
  deficit_below_reserve, production_payment_limit,
}

-- Between three and ten ticks of upkeep are kept, whatever was measured.
pub safety_ticks_bounds :
    (r : Resource) (rules : Rules) (station : StationObservation) (m : PolicyMemory)
    → (3 ≤ safety_ticks r rules station m) × (safety_ticks r rules station m ≤ 10)
unfolding safety_ticks
safety_ticks_bounds r rules station m = elim (Option-cases (median_round_trip m)) [
  | inl few ↦ rw few (omega arith)
  | inr (t, measured) ↦ rw measured (omega arith)
]

saved_units-le :
    (base have before : ℕ)
    → base ≤ 15
    → (base + saved_units base have before ≤ 15) × (saved_units base have before ≤ have)
unfolding saved_units
saved_units-le base have before h = omega arith

buffer-le :
    (rules : Rules) (station : StationObservation) (m : PolicyMemory) (r : Resource)
    → buffer rules station m r ≤ 15
unfolding buffer
buffer-le rules station m r = omega arith

-- The reserve of a resource is at least the upkeep buffer and at most fifteen units, and what is
-- saved on top of the buffer is really in stock.
pub compute_reserve_bounds :
    (rules : Rules) (station : StationObservation) (m : PolicyMemory) (available : Bundle)
    (r : Resource)
    → let (reserve, m') = compute_reserve rules station m available in
      (get reserve r ≤ 15)
      × (min 15 (get station.upkeep_per_tick r * safety_ticks r rules station m) ≤ get reserve r)
      × (get m'.stored_reserve r ≤ get available r)
unfolding compute_reserve
compute_reserve_bounds rules station m available r =
    let k =
      saved_units-le (buffer rules station m r) (get available r) (get m.stored_reserve r)
        (buffer-le rules station m r) in
    rw
      (
        get-bundle_of
            (λ s.
              buffer rules station m s
              + saved_units (buffer rules station m s) (get available s) (get m.stored_reserve s))
            r,
        get-bundle_of
            (λ s. saved_units (buffer rules station m s) (get available s) (get m.stored_reserve s))
            r,
      )
      (
        k.0,
        le-add_right (buffer rules station m r)
            (saved_units (buffer rules station m r) (get available r) (get m.stored_reserve r)),
        k.1,
      )

-- More stock never makes a resource more urgent.
pub compute_urgency_antitone :
    (a b upkeep reserve : Bundle) (r : Resource)
    → get a r ≤ get b r
    → level (compute_urgency b upkeep reserve r) ≤ level (compute_urgency a upkeep reserve r)
unfolding compute_urgency
compute_urgency_antitone a b upkeep reserve r h = ground arith

-- A resource that is not urgent covers the reserve and a tick of upkeep, so it shows no deficit.
pub compute_urgency-calm :
    (available upkeep reserve : Bundle) (r : Resource)
    → compute_urgency available upkeep reserve r ≡ calm
    → (20 ≤ get available r)
      × (get upkeep r ≤ get available r)
      × (get (deficit_below_reserve available reserve) r ≡ 0)
unfolding compute_urgency deficit_below_reserve
compute_urgency-calm available upkeep reserve r h =
    ground (arith, get-saturating_sub reserve available r)

-- The payment limit as a number of halves: `none`, no limit, ranks above one half.
abbrev pub limit_rank : Option ℕ → ℕ
limit_rank none = 2
limit_rank (some halves) = halves

-- More stock of the specialty never tightens the limit on payments, at any time of the run.
pub production_payment_limit_mono :
    (a b : Bundle) (station : StationObservation) (ticks_left : Option ℕ)
    → get a station.specialty ≤ get b station.specialty
    → limit_rank (production_payment_limit a station ticks_left)
      ≤ limit_rank (production_payment_limit b station ticks_left)
unfolding production_payment_limit
production_payment_limit_mono a b station none h = ground arith
production_payment_limit_mono a b station (some t) h = ground arith
