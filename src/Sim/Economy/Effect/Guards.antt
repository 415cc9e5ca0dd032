-- ===== src/Sim/Economy/Effect/Guards.antt =====
-- What `_precheck` (bazaar_sim/economy.py) lets through, and what a lookup finds.
use mathlib.Core.Option.{some-injective}
use mathlib.Core.Path.{subst}
use spaceport_bazzar_client.Base.{
  ◌==◌, nat_eq, Option-cases, >>=-eq_some, find?-test, ℕ, ◌≡◌, sym, ap, inl, inr, true, false, none,
  some, List, arith,
}
use spaceport_bazzar_client.Domain.Bundle.{resource_eq}
use spaceport_bazzar_client.Domain.Types.{ResultCode, ObjectId, object_eq, Offer, Advertisement}
use spaceport_bazzar_client.Execution.Actions.{AdvertiseAction, OfferAction, Action}
use spaceport_bazzar_client.Sim.Station.{SimStation}
use spaceport_bazzar_client.Sim.Economy.{
  CommandOutcome, is_ok, Economy, station_of, find_offer, precheck_action, precheck, settlement,
  settled, settle_offer,
}
use spaceport_bazzar_client.Sim.Economy.Effect.{IsAdmitted, IsPostable, IsPublishable, find_ad}

pub find_offer-id :
    (oid : ObjectId) (l : List Offer) (o : Offer) → find_offer oid l ≡ some o → o.offer_id ≡ oid
find_offer-id oid l o e =
    (object_eq.beq_iff o.offer_id oid).0 (find?-test (λ x. x.offer_id == oid) l o e)

pub find_offer_self :
    (oid : ObjectId) (l : List Offer) (o : Offer)
    → find_offer oid l ≡ some o
    → find_offer o.offer_id l ≡ some o
find_offer_self oid l o e = subst (λ i. find_offer i l ≡ some o) (sym (find_offer-id oid l o e)) e

pub find_ad-id :
    (oid : ObjectId) (l : List Advertisement) (a : Advertisement)
    → find_ad oid l ≡ some a
    → a.advertisement_id ≡ oid
find_ad-id oid l a e =
    (object_eq.beq_iff a.advertisement_id oid).0 (find?-test (λ x. x.advertisement_id == oid) l a e)

-- `_precheck` lets a command through only from an admitted caller.
pub precheck-IsAdmitted :
    (sid : ℕ) (s : SimStation) (action : Action) (e : Economy)
    → station_of sid e.stations ≡ some s
    → precheck sid s action e ≡ none
    → IsAdmitted sid e × (precheck_action sid s action e ≡ none)
unfolding precheck
precheck-IsAdmitted sid s action e k h = (
  record {
    station = s;
    known = k;
    alive = ground arith;
    in_time = ground arith;
    in_quota = ground arith;
  },
  ground arith,
)

pub precheck-IsPostable :
    (sid : ℕ) (s : SimStation) (a : OfferAction) (e : Economy)
    → station_of sid e.stations ≡ some s
    → precheck_action sid s (Action.offer a) e ≡ none
    → IsPostable sid a e
unfolding precheck_action
precheck-IsPostable sid s a e known h = elim (Option-cases (station_of a.recipient_id e.stations)) [
  | inl missing ↦ absurd (ground arith)
  | inr (partner, found) ↦ record {
    partner = partner;
    known = found;
    partner_alive = ground arith;
    distinct = ground arith;
    gives = ground arith;
    later = ground arith;
    ttl = ground arith;
    ends = ground arith;
    caller = s;
    caller_known = known;
    covers = ground arith;
    room = ground arith;
  }
]

pub precheck-IsPublishable :
    (sid : ℕ) (s : SimStation) (a : AdvertiseAction) (e : Economy)
    → precheck_action sid s (Action.advertise a) e ≡ none
    → IsPublishable a e
unfolding precheck_action
precheck-IsPublishable sid s a e h = record {
  later = ground arith;
  ttl = ground arith;
  ends = ground arith;
}

pub settle_offer-inversion :
    (o : Offer) (e : Economy) (out : CommandOutcome) (e' : Economy)
    → settle_offer o e ≡ some (out, e')
    → (l : List SimStation) × (settlement o e.stations ≡ some l)
      × (is_ok out.code ≡ true)
      × (e' ≡ settled o l e)
unfolding settle_offer
settle_offer-inversion o e out e' h =
    let (l, writes, rest) = >>=-eq_some (settlement o e.stations) _ h in
    (
      l,
      writes,
      ap (λ p. is_ok p.0.code) (sym (some-injective _ _ rest)),
      ap (λ p. p.1) (sym (some-injective _ _ rest)),
    )

-- A refusal is never reported as a success.
pub precheck_refuses :
    (sid : ℕ) (s : SimStation) (action : Action) (e : Economy) (code : ResultCode)
    → precheck sid s action e ≡ some code
    → is_ok code ≡ false
unfolding precheck
precheck_refuses sid s (Action.offer a) e code h =
    elim (Option-cases (station_of a.recipient_id e.stations)) [
      | inl missing ↦ ground arith
      | inr (partner, found) ↦ ground arith
    ]
precheck_refuses sid s _ e code h = ground arith
