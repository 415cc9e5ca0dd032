-- ===== src/Policy/Decide/Listed.antt =====
-- The offers that a decision accepts and withdraws are those of the observation
-- (bazaar_client/policy/decide.py, bazaar_client/domain/types.py).
use spaceport_bazzar_client.Base.{
  ◌==◌, nat_eq, Bool-cases, keep_if, All, find?-test, All-both, ◌≡◌, ◌≢◌, inl, inr, ◌&&◌, some,
  List, [], ◌∷◌, arith,
}
use spaceport_bazzar_client.Domain.Types.{
  object_eq, is_active, Offer, is_open_at, Advertisement, Snapshot, incoming_open_offers,
  outgoing_open_offers, own_advertisement,
}
use spaceport_bazzar_client.Sim.Economy.{find_offer}
use spaceport_bazzar_client.Sim.Economy.Invariant.{Unique}
use spaceport_bazzar_client.Policy.Decide.Kept.{IsOffered, IsProposed, IsPosted}

-- An offer is found under its id.
abbrev IsListed : List Offer → Offer → Type 0
IsListed offers o = find_offer o.offer_id offers ≡ some o

IsListed-later :
    (p : Offer) (offers : List Offer) (o : Offer)
    → (o.offer_id ≢ p.offer_id) × IsListed offers o
    → IsListed (p ∷ offers) o
IsListed-later p offers o (other, found) = ground arith

Unique-IsListed : (offers : List Offer) → Unique offers → All (IsListed offers) offers
Unique-IsListed [] h = tt
Unique-IsListed (o ∷ offers) (others, rest) = (
  ground arith,
  All-both (λ p. p.offer_id ≢ o.offer_id) (IsListed offers) (IsListed (o ∷ offers)) offers
      (λ p other found. IsListed-later o offers p (other, found)) others
      (Unique-IsListed offers rest),
)

incoming_each :
    (snap : Snapshot) (l : List Offer)
    → All (IsListed snap.offers) l
    → All
        (IsOffered snap)
        (keep_if (λ o. o.recipient_id == snap.self_station_id && is_open_at o snap.tick) l)
incoming_each snap [] h = tt
incoming_each snap (o ∷ l) h =
    elim (Bool-cases (o.recipient_id == snap.self_station_id && is_open_at o snap.tick)) [
      | inl kept ↦ rw kept (
        record { listed = h.0; addressed = ground arith; standing = ground arith },
        incoming_each snap l h.1,
      )
      | inr left ↦ rw left (incoming_each snap l h.1)
    ]

pub incoming_open_offers-IsOffered :
    (snap : Snapshot) → Unique snap.offers → All (IsOffered snap) (incoming_open_offers snap)
unfolding incoming_open_offers
incoming_open_offers-IsOffered snap h =
    incoming_each snap snap.offers (Unique-IsListed snap.offers h)

outgoing_each :
    (snap : Snapshot) (l : List Offer)
    → All (IsListed snap.offers) l
    → All
        (IsProposed snap)
        (keep_if (λ o. o.proposer_id == snap.self_station_id && is_open_at o snap.tick) l)
outgoing_each snap [] h = tt
outgoing_each snap (o ∷ l) h =
    elim (Bool-cases (o.proposer_id == snap.self_station_id && is_open_at o snap.tick)) [
      | inl kept ↦ rw kept (
        record { listed = h.0; proposed = ground arith; standing = ground arith },
        outgoing_each snap l h.1,
      )
      | inr left ↦ rw left (outgoing_each snap l h.1)
    ]

pub outgoing_open_offers-IsProposed :
    (snap : Snapshot) → Unique snap.offers → All (IsProposed snap) (outgoing_open_offers snap)
unfolding outgoing_open_offers
outgoing_open_offers-IsProposed snap h =
    outgoing_each snap snap.offers (Unique-IsListed snap.offers h)

pub own_advertisement-IsPosted :
    (snap : Snapshot) (posted : Advertisement)
    → own_advertisement snap ≡ some posted
    → IsPosted snap posted
unfolding own_advertisement
own_advertisement-IsPosted snap posted e =
    let passed =
      find?-test (λ (a : Advertisement). a.station_id == snap.self_station_id && is_active a.status)
        snap.advertisements posted e in
    record { found = e; own = ground arith; active = ground arith }
