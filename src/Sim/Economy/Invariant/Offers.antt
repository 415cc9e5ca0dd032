-- ===== src/Sim/Economy/Invariant/Offers.antt =====
-- The list of offers (bazaar_sim/economy.py) under `_close` and `_post_offer`.
use spaceport_bazzar_client.Base.{
  if◌then◌else◌, ◌==◌, nat_eq, Bool-cases, keep_if, All, All-append, All-keep_if, All-map, ℕ, ◌+◌,
  ◌≤◌, ◌≡◌, refl, ◌≢◌, inl, inr, Bool, false, Option, List, [], ◌∷◌, ◌++◌, arith,
}
use spaceport_bazzar_client.Domain.Bundle.{resource_eq}
use spaceport_bazzar_client.Domain.Types.{OfferStatus, ObjectId, object_eq, is_open, Offer}
use spaceport_bazzar_client.Execution.Actions.{OfferAction}
use spaceport_bazzar_client.Sim.Economy.{Economy, close_one, close, open_count, posted}
use spaceport_bazzar_client.Sim.Economy.Invariant.{IsFormed, Unique}

module _ (oid : ObjectId) (status : OfferStatus) (t : Option ObjectId) (tick : ℕ) where
  pub open_count-close-le :
      (x : ℕ) (l : List Offer)
      → is_open status ≡ false
      → open_count x (close oid status t tick l) ≤ open_count x l
  unfolding open_count close_one
  open_count-close-le x [] h = omega arith
  open_count-close-le x (o ∷ l) h = ground (arith, open_count-close-le x l h)

  close_one-id : (o : Offer) → (close_one oid status t tick o).offer_id ≡ o.offer_id
  unfolding close_one
  close_one-id o = ground arith

  All-close-id :
      (i : ObjectId) (l : List Offer)
      → All (λ p. p.offer_id ≢ i) l
      → All (λ p. p.offer_id ≢ i) (close oid status t tick l)
  All-close-id i l =
      All-map (λ p. p.offer_id ≢ i) (λ p. p.offer_id ≢ i) _ l (λ o h. rw close_one-id h)

  pub Unique-close : (l : List Offer) → Unique l → Unique (close oid status t tick l)
  Unique-close [] h = tt
  Unique-close (o ∷ l) h = (rw close_one-id (All-close-id o.offer_id l h.0), Unique-close l h.1)

  pub close_one-IsFormed :
      (e : Economy) (o : Offer)
      → is_open status ≡ false
      → IsFormed e o
      → IsFormed e (close_one oid status t tick o)
  unfolding close_one
  close_one-IsFormed e o closed h = elim (Bool-cases (o.offer_id == oid)) [
    | inl same ↦ rw same (record {
      number = h.number;
      numbered = h.numbered;
      given_out = h.given_out;
      distinct = h.distinct;
      proposer_known = h.proposer_known;
      recipient_known = h.recipient_known;
      gives = h.gives;
      live = λ open_now. absurd (cc);
      dated = rw closed refl;
    })
    | inr other ↦ rw other h
  ]

-- The proposer of a new offer has one more that is open, and no other station has.
pub open_count-posted :
    (x sid : ℕ) (a : OfferAction) (e : Economy) (l : List Offer)
    → open_count x (l ++ posted sid a e ∷ []) ≡ open_count x l + (if sid == x then 1 else 0)
unfolding open_count
open_count-posted x sid a e [] = ground arith
open_count-posted x sid a e (o ∷ l) = ground (arith, open_count-posted x sid a e l)

-- A number that was not given out is on no offer.
fresh_id :
    (e : Economy) (l : List Offer)
    → All (IsFormed e) l
    → All (λ p. ObjectId.offer e.next_id ≢ p.offer_id) l
fresh_id e [] h = tt
fresh_id e (o ∷ l) h = (ground (arith, h.0.numbered, h.0.given_out), fresh_id e l h.1)

Unique-append :
    (l : List Offer) (o : Offer)
    → All (λ p. o.offer_id ≢ p.offer_id) l
    → Unique l
    → Unique (l ++ o ∷ [])
Unique-append [] o h u = (tt, tt)
Unique-append (p ∷ l) o h u =
    (All-append (λ q. q.offer_id ≢ p.offer_id) l (o ∷ []) u.0 (h.0, tt), Unique-append l o h.1 u.1)

pub Unique-posted :
    (sid : ℕ) (a : OfferAction) (e : Economy) (l : List Offer)
    → All (IsFormed e) l
    → Unique l
    → Unique (l ++ posted sid a e ∷ [])
Unique-posted sid a e l h u = Unique-append l (posted sid a e) (fresh_id e l h) u

pub Unique-keep_if : (test : Offer → Bool) (l : List Offer) → Unique l → Unique (keep_if test l)
Unique-keep_if test [] h = tt
Unique-keep_if test (o ∷ l) (others, rest) = elim (Bool-cases (test o)) [
  | inl kept ↦
      rw kept (All-keep_if test (λ p. p.offer_id ≢ o.offer_id) l others, Unique-keep_if test l rest)
  | inr left ↦ rw left (Unique-keep_if test l rest)
]
