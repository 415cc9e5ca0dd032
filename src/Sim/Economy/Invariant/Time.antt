-- ===== src/Sim/Economy/Invariant/Time.antt =====
-- `advance_tick` and `end_run` (bazaar_sim/economy.py) keep the economy valid.
use mathlib.Core.Option.{some-injective}
use mathlib.Core.Path.{subst}
use spaceport_bazzar_client.Base.{
  ltb, ◌==◌, nat_eq, Bool-cases, ◌>>=◌, >>=-eq_some, keep_if, All, All-imp, All-both, ℕ, ◌+◌, ◌<◌,
  ◌≡◌, refl, ◌≢◌, inl, inr, false, not, none, some, List, [], ◌∷◌, map, arith,
}
use spaceport_bazzar_client.Domain.Bundle.{resource_eq, Bundle, is_zero}
use spaceport_bazzar_client.Domain.Types.{OfferStatus, ObjectId, object_eq, is_open, Rules, Offer}
use spaceport_bazzar_client.Sim.Station.{SimStation, is_some, IsSound}
use spaceport_bazzar_client.Sim.Station.Tick.{
  after_tick, settle_tick-after_tick, after_tick-IsSound, after_tick-id,
}
use spaceport_bazzar_client.Sim.Economy.{
  Economy, station_of, close_one, close_where, settle_all, has_failed, is_overdue, is_orphaned,
  advance_tick,
}
use spaceport_bazzar_client.Sim.Economy.Invariant.{IsKnown, IsFormed, IsValid}
use spaceport_bazzar_client.Sim.Economy.Invariant.Closing.{
  close_each-All, Unique-close_each, open_count-close_each-le, close_where_closes,
}

settle_all-map :
    (rules : Rules) (tick : ℕ) (l : List SimStation)
    → settle_all rules tick l ≡ some (map (after_tick rules tick) l)
unfolding settle_all
settle_all-map rules tick [] = refl
settle_all-map rules tick (s ∷ l) =
    rw (settle_tick-after_tick rules tick s, settle_all-map rules tick l)

station_of-map :
    (x : ℕ) (rules : Rules) (tick : ℕ) (l : List SimStation)
    → station_of x (map (after_tick rules tick) l)
      ≡ (station_of x l >>= λ s. some (after_tick rules tick s))
station_of-map x rules tick [] = refl
station_of-map x rules tick (s ∷ l) =
    ground (arith, after_tick-id rules tick s, station_of-map x rules tick l)

-- The economy after a tick.
unfoldable pub ticked : Economy → Economy
ticked e =
    let tick = e.tick + 1 in
    let stations = map (after_tick e.rules tick) e.stations in
    record e {
      tick = tick;
      command_counts = [];
      world_version = e.world_version + 1;
      stations = stations;
      advertisements =
          keep_if (λ a. not (has_failed stations a.station_id))
            (keep_if (λ a. ltb tick a.expires_tick) e.advertisements);
      offers =
          close_where (is_orphaned stations) OfferStatus.withdrawn tick
            (close_where (is_overdue tick) OfferStatus.expired tick e.offers);
    }

pub advance_tick-ticked : (e : Economy) → advance_tick e ≡ some (ticked e)
unfolding advance_tick ticked
advance_tick-ticked e = rw (settle_all-map e.rules (e.tick + 1) e.stations)

-- Formed, but for the deadline.
record IsShaped (e : Economy) (o : Offer) : Type 0 where
  number : ℕ
  numbered : o.offer_id ≡ ObjectId.offer number
  given_out : number < e.next_id
  distinct : o.recipient_id ≢ o.proposer_id
  proposer_known : IsKnown o.proposer_id e.stations
  recipient_known : IsKnown o.recipient_id e.stations
  gives : is_zero o.give ≡ false
  dated : is_some o.closed_tick ≡ not (is_open o.status)

close_one-IsShaped :
    (e : Economy) (status : OfferStatus) (tick : ℕ) (oid : ObjectId) (o : Offer)
    → is_open status ≡ false
    → IsShaped e o
    → IsShaped e (close_one oid status none tick o)
unfolding close_one
close_one-IsShaped e status tick oid o closed h = elim (Bool-cases (o.offer_id == oid)) [
  | inl same ↦ rw same (record {
    number = h.number;
    numbered = h.numbered;
    given_out = h.given_out;
    distinct = h.distinct;
    proposer_known = h.proposer_known;
    recipient_known = h.recipient_known;
    gives = h.gives;
    dated = rw closed refl;
  })
  | inr other ↦ rw other h
]

-- A tick makes no offer live again.
close_one-not_overdue :
    (status : OfferStatus) (tick now : ℕ) (oid : ObjectId) (o : Offer)
    → is_open status ≡ false
    → is_overdue now o ≡ false
    → is_overdue now (close_one oid status none tick o) ≡ false
unfolding close_one
close_one-not_overdue status tick now oid o closed h = ground arith

IsKnown-after_tick :
    (x : ℕ) (rules : Rules) (tick : ℕ) (l : List SimStation)
    → IsKnown x l
    → IsKnown x (map (after_tick rules tick) l)
IsKnown-after_tick x rules tick l k = grind (arith, station_of-map x rules tick l)

pub ticked-none_overdue :
    (e : Economy) → All (λ o. is_overdue (ticked e).tick o ≡ false) (ticked e).offers
unfolding ticked
ticked-none_overdue e =
    let t = e.tick + 1 in
    close_each-All (is_orphaned (ticked e).stations) OfferStatus.withdrawn t
      (λ o. is_overdue t o ≡ false) (close_where (is_overdue t) OfferStatus.expired t e.offers)
      (close_where (is_overdue t) OfferStatus.expired t e.offers)
      (λ oid o. close_one-not_overdue OfferStatus.withdrawn t t oid o refl)
      (close_where_closes (is_overdue t) OfferStatus.expired t e.offers (λ p. refl))

pub ticked-rules : (e : Economy) → (ticked e).rules ≡ e.rules
unfolding ticked
ticked-rules e = refl

pub ticked-IsKnown : (x : ℕ) (e : Economy) → IsKnown x e.stations → IsKnown x (ticked e).stations
unfolding ticked
ticked-IsKnown x e k = IsKnown-after_tick x e.rules (e.tick + 1) e.stations k

pub ticked-tick : (e : Economy) → (ticked e).tick ≡ e.tick + 1
unfolding ticked
ticked-tick e = refl

module _ (starts : ℕ → Bundle) (e : Economy) (v : IsValid starts e) where
  shaped : All (IsShaped (ticked e)) (ticked e).offers
  unfolding ticked
  shaped =
      let t = e.tick + 1 in
      let e' = ticked e in
      close_each-All (is_orphaned e'.stations) OfferStatus.withdrawn t (IsShaped e')
        (close_where (is_overdue t) OfferStatus.expired t e.offers)
        (close_where (is_overdue t) OfferStatus.expired t e.offers)
        (λ oid o. close_one-IsShaped e' OfferStatus.withdrawn t oid o refl)
        (close_each-All (is_overdue t) OfferStatus.expired t (IsShaped e') e.offers e.offers
          (λ oid o. close_one-IsShaped e' OfferStatus.expired t oid o refl)
          (All-imp (IsFormed e) (IsShaped e') e.offers
            (λ o h. record {
              number = h.number;
              numbered = h.numbered;
              given_out = h.given_out;
              distinct = h.distinct;
              proposer_known =
                  IsKnown-after_tick o.proposer_id e.rules t e.stations h.proposer_known;
              recipient_known =
                  IsKnown-after_tick o.recipient_id e.rules t e.stations h.recipient_known;
              gives = h.gives;
              dated = h.dated;
            })
            v.formed))

  pub ticked-IsValid : 0 < e.rules.max_health → IsValid starts (ticked e)
  unfolding ticked
  ticked-IsValid m =
      let t = e.tick + 1 in
      let fresh = close_where (is_overdue t) OfferStatus.expired t e.offers in
      let e' = ticked e in
      record {
        sound = λ x s found. IsSound-after x s (rw station_of-map at found);
        formed =
            All-both (IsShaped e') (λ o. is_overdue t o ≡ false) (IsFormed e') e'.offers
              (λ o h fine. record {
                number = h.number;
                numbered = h.numbered;
                given_out = h.given_out;
                distinct = h.distinct;
                proposer_known = h.proposer_known;
                recipient_known = h.recipient_known;
                gives = h.gives;
                live = λ now. ground arith;
                dated = h.dated;
              })
              shaped (ticked-none_overdue e);
        unique =
            Unique-close_each (is_orphaned e'.stations) OfferStatus.withdrawn t fresh fresh
              (Unique-close_each (is_overdue t) OfferStatus.expired t e.offers e.offers v.unique);
        room = λ x. omega (
          arith,
          v.room x,
          open_count-close_each-le (is_overdue t) OfferStatus.expired t x e.offers e.offers refl,
          open_count-close_each-le (is_orphaned e'.stations) OfferStatus.withdrawn t x fresh fresh
              refl,
        );
        quota = λ x. omega arith;
      }
    where
      IsSound-after :
          (x : ℕ) (s : SimStation)
          → (station_of x e.stations >>= λ u. some (after_tick e.rules (e.tick + 1) u)) ≡ some s
          → IsSound e.rules (starts x) s
      IsSound-after x s h =
          let (u, found, same) = >>=-eq_some (station_of x e.stations) _ h in
          subst (IsSound e.rules (starts x)) (some-injective _ _ same)
            (after_tick-IsSound e.rules (e.tick + 1) (starts x) u m (v.sound x u found))

-- A tick of a valid economy never raises and keeps it valid, if the rules allow some health.
pub advance_tick-IsValid :
    (starts : ℕ → Bundle) (e : Economy)
    → 0 < e.rules.max_health
    → IsValid starts e
    → (e' : Economy) × (advance_tick e ≡ some e') × IsValid starts e'
advance_tick-IsValid starts e m v = (ticked e, advance_tick-ticked e, ticked-IsValid starts e v m)
