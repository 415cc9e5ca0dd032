-- ===== src/Sim/Economy/Invariant/Cleanup.antt =====
-- What a tick and the end of the run close (`advance_tick` and `end_run` of
-- bazaar_sim/economy.py).
use mathlib.Core.Option.{some-injective}
use mathlib.Core.Path.{subst}
use spaceport_bazzar_client.Base.{
  ltb, nat_eq, keep_if, All, All-keep_if, keep_if-test, All-imp, All-both, ℕ, ◌+◌, ◌<◌, ◌≡◌, refl,
  sym, ◌∙◌, true, false, not, none, some, [], arith,
}
use spaceport_bazzar_client.Domain.Bundle.{resource_eq, Bundle}
use spaceport_bazzar_client.Domain.Types.{OfferStatus, object_eq, is_open, Offer, Advertisement}
use spaceport_bazzar_client.Sim.Economy.{
  Economy, close_where, has_failed, is_overdue, is_orphaned, advance_tick, end_run,
}
use spaceport_bazzar_client.Sim.Economy.Invariant.{IsFormed, IsValid}
use spaceport_bazzar_client.Sim.Economy.Invariant.Offers.{close_one-IsFormed}
use spaceport_bazzar_client.Sim.Economy.Invariant.Closing.{
  close_each-All, Unique-close_each, open_count-close_each-le, close_where_closes,
}
use spaceport_bazzar_client.Sim.Economy.Invariant.Time.{
  ticked, advance_tick-ticked, ticked-none_overdue,
}

ticked-none_orphaned :
    (e : Economy) → All (λ o. is_orphaned (ticked e).stations o ≡ false) (ticked e).offers
unfolding ticked
ticked-none_orphaned e =
    close_where_closes (is_orphaned (ticked e).stations) OfferStatus.withdrawn (e.tick + 1)
      (close_where (is_overdue (e.tick + 1)) OfferStatus.expired (e.tick + 1) e.offers) (λ p. refl)

ticked-advertisements :
    (e : Economy)
    → All
        (λ a.
          ((ticked e).tick < a.expires_tick)
          × (has_failed (ticked e).stations a.station_id ≡ false))
        (ticked e).advertisements
unfolding ticked
ticked-advertisements e =
    let fresh = λ (a : Advertisement). ltb (e.tick + 1) a.expires_tick in
    let alive = λ (a : Advertisement). not (has_failed (ticked e).stations a.station_id) in
    All-both (λ a. fresh a ≡ true) (λ a. alive a ≡ true) _ (ticked e).advertisements
      (λ a f g. (ground arith, ground arith))
      (All-keep_if alive (λ a. fresh a ≡ true) (keep_if fresh e.advertisements)
        (keep_if-test fresh e.advertisements))
      (keep_if-test alive (keep_if fresh e.advertisements))

-- After a tick no offer past its deadline and no offer of a failed station is still open, and every
-- advertisement that is left has a deadline ahead and belongs to a station that has not failed.
pub advance_tick_closes :
    (e e' : Economy)
    → advance_tick e ≡ some e'
    → All (λ o. is_overdue e'.tick o ≡ false) e'.offers
      × All (λ o. is_orphaned e'.stations o ≡ false) e'.offers
      × All
          (λ a. (e'.tick < a.expires_tick) × (has_failed e'.stations a.station_id ≡ false))
          e'.advertisements
advance_tick_closes e e' h =
    subst
      (λ d.
        All (λ o. is_overdue d.tick o ≡ false) d.offers
        × All (λ o. is_orphaned d.stations o ≡ false) d.offers
        × All (λ a. (d.tick < a.expires_tick) × (has_failed d.stations a.station_id ≡ false))
            d.advertisements)
      (some-injective _ _ (sym (advance_tick-ticked e) ∙ h))
      (ticked-none_overdue e, ticked-none_orphaned e, ticked-advertisements e)

-- Closing what is still open at the end keeps the economy valid, leaves no offer open and no
-- advertisement standing, and moves no goods.
pub end_run-IsValid :
    (starts : ℕ → Bundle) (e : Economy)
    → IsValid starts e
    → IsValid starts (end_run e)
      × All (λ o. is_open o.status ≡ false) (end_run e).offers
      × ((end_run e).advertisements ≡ [])
      × ((end_run e).stations ≡ e.stations)
unfolding end_run
end_run-IsValid starts e v =
    let test = λ (o : Offer). is_open o.status in
    let e' = end_run e in
    (
      record {
        sound = v.sound;
        formed =
            close_each-All test OfferStatus.run_ended e.tick (IsFormed e') e.offers e.offers
              (λ oid o h. close_one-IsFormed oid OfferStatus.run_ended none e.tick e' o refl h)
              (All-imp (IsFormed e) (IsFormed e') e.offers
                (λ o h. record {
                  number = h.number;
                  numbered = h.numbered;
                  given_out = h.given_out;
                  distinct = h.distinct;
                  proposer_known = h.proposer_known;
                  recipient_known = h.recipient_known;
                  gives = h.gives;
                  live = h.live;
                  dated = h.dated;
                })
                v.formed);
        unique = Unique-close_each test OfferStatus.run_ended e.tick e.offers e.offers v.unique;
        room = λ x. omega (
          arith,
          v.room x,
          open_count-close_each-le test OfferStatus.run_ended e.tick x e.offers e.offers refl,
        );
        quota = v.quota;
      },
      close_where_closes test OfferStatus.run_ended e.tick e.offers (λ p. refl),
      refl,
      refl,
    )
