-- ===== src/Sim/Economy/Invariant/Start.antt =====
-- The start of a run (bazaar_sim/economy.py, `__init__`), and a change of production.
use mathlib.Core.Path.{subst}
use mathlib.Core.Option.{some-injective}
use spaceport_bazzar_client.Base.{
  ◌==◌, nat_eq, Bool-cases, All, All-find?, All-imp, ℕ, ◌+◌, ◌≤◌, ◌≡◌, refl, sym, inl, inr, none,
  some, List, [], ◌∷◌, arith,
}
use spaceport_bazzar_client.Domain.Bundle.{Resource, resource_eq, Bundle, zero_bundle}
use spaceport_bazzar_client.Domain.Types.{object_eq, Rules}
use spaceport_bazzar_client.Sim.Station.{SimStation, new_station, IsSound}
use spaceport_bazzar_client.Sim.Economy.{
  Economy, station_of, open_count, set_production, apply_production, put_station, put_stations,
  new_economy,
}
use spaceport_bazzar_client.Sim.Economy.Invariant.{IsKnown, IsFormed, IsValid}
use spaceport_bazzar_client.Sim.Economy.Invariant.Counting.{IsFormed-later}

-- The stock that each station of a roster holds.
abbrev pub stock_of : List SimStation → ℕ → Bundle
stock_of l x = elim (station_of x l) [ none ↦ zero_bundle | some s ↦ s.inventory ]

stock_of-found :
    (x : ℕ) (s : SimStation) (l : List SimStation)
    → station_of x l ≡ some s
    → stock_of l x ≡ s.inventory
stock_of-found x s l e = ground arith

All-put_station :
    (P : SimStation → Type 0) (s : SimStation) (l : List SimStation)
    → P s
    → All P l
    → All P (put_station s l)
unfolding put_station
All-put_station P s [] p h = (p, tt)
All-put_station P s (t ∷ l) p h = elim (Bool-cases (t.station_id == s.station_id)) [
  | inl same ↦ rw same (p, h.1)
  | inr other ↦ rw other (h.0, All-put_station P s l p h.1)
]

All-put_stations :
    (P : SimStation → Type 0) (l known : List SimStation)
    → All P l
    → All P known
    → All P (put_stations l known)
unfolding put_stations
All-put_stations P [] known h k = k
All-put_stations P (s ∷ l) known h k =
    All-put_stations P l (put_station s known) h.1 (All-put_station P s known h.0 k)

-- A new station is sound if the rules allow the health of 100 that it starts with.
pub new_station-IsSound :
    (rules : Rules) (sid : ℕ) (specialty : Resource) (stock : Bundle)
    → 100 ≤ rules.max_health
    → IsSound rules stock (new_station sid specialty stock)
new_station-IsSound rules sid specialty stock m = record {
  balances = λ r. ground arith;
  feeds = λ r. ground arith;
  healthy = record {
    capped = m;
    alive = λ _. omega arith;
    dated = refl;
    streak = omega arith;
    longest = omega arith;
  };
}

-- A run that starts from sound stations starts valid.
pub new_economy-IsValid :
    (stations : List SimStation) (rules : Rules) (run_id : ℕ)
    → All (λ s. IsSound rules s.inventory s) stations
    → let e = new_economy stations rules run_id in IsValid (stock_of e.stations) e
unfolding new_economy open_count
new_economy-IsValid stations rules run_id h = record {
  sound = λ x s found.
      subst (λ b. IsSound rules b s) (sym (stock_of-found x s (put_stations stations []) found))
        (All-find? (λ t. t.station_id == x) (λ t. IsSound rules t.inventory t)
          (put_stations stations []) s
          (All-put_stations (λ t. IsSound rules t.inventory t) stations [] h tt) found);
  formed = tt;
  unique = tt;
  room = λ x. omega arith;
  quota = λ x. omega arith;
}

abbrev producing : ℕ → SimStation → SimStation
producing n s = record s { production = n }

station_of-set_production :
    (produce : ℕ → ℕ) (i x : ℕ) (l : List SimStation) (s' : SimStation)
    → station_of x (set_production produce i l) ≡ some s'
    → (s : SimStation) × (n : ℕ) × (station_of x l ≡ some s) × (producing n s ≡ s')
unfolding set_production
station_of-set_production produce i x [] s' e = cc
station_of-set_production produce i x (s ∷ l) s' e = elim (Bool-cases (s.station_id == x)) [
  | inl here ↦ (s, produce i, rw here, some-injective _ _ (rw here at e))
  | inr later ↦
      let (t, n, found, same) = station_of-set_production produce (i + 1) x l s' (rw later at e) in
      (t, n, rw later found, same)
]

set_production-IsKnown :
    (produce : ℕ → ℕ) (i x : ℕ) (l : List SimStation)
    → IsKnown x l
    → IsKnown x (set_production produce i l)
unfolding set_production
set_production-IsKnown produce i x [] k = k
set_production-IsKnown produce i x (s ∷ l) k =
    ground (arith, set_production-IsKnown produce (i + 1) x l)

producing-IsSound :
    (rules : Rules) (start : Bundle) (n : ℕ) (s : SimStation)
    → IsSound rules start s
    → IsSound rules start (producing n s)
producing-IsSound rules start n s h = record {
  balances = h.balances;
  feeds = h.feeds;
  healthy = record {
    capped = h.healthy.capped;
    alive = h.healthy.alive;
    dated = h.healthy.dated;
    streak = h.healthy.streak;
    longest = h.healthy.longest;
  };
}

pub apply_production-IsValid :
    (starts : ℕ → Bundle) (produce : ℕ → ℕ → ℕ) (e : Economy)
    → IsValid starts e
    → IsValid starts (apply_production produce e)
unfolding apply_production
apply_production-IsValid starts produce e v =
    let e' = apply_production produce e in
    record {
      sound = λ x s found.
          let (t, n, was, same) =
            station_of-set_production (produce e.tick) 0 x e.stations s found in
          subst (IsSound e.rules (starts x)) same
            (producing-IsSound e.rules (starts x) n t (v.sound x t was));
      formed =
          All-imp (IsFormed e) (IsFormed e') e.offers
            (λ o.
              IsFormed-later e e' o (omega arith) refl
                (λ x. set_production-IsKnown (produce e.tick) 0 x e.stations))
            v.formed;
      unique = v.unique;
      room = v.room;
      quota = v.quota;
    }

pub apply_production-IsKnown :
    (produce : ℕ → ℕ → ℕ) (x : ℕ) (e : Economy)
    → IsKnown x e.stations
    → IsKnown x (apply_production produce e).stations
unfolding apply_production
apply_production-IsKnown produce x e k = set_production-IsKnown (produce e.tick) 0 x e.stations k
