-- ===== src/Sim/Economy/Invariant/Closing.antt =====
-- The loops of bazaar_sim/economy.py that close every offer passing a test.
use spaceport_bazzar_client.Base.{
  ◌==◌, nat_eq, Bool-cases, All, All-imp, All-map, ℕ, ◌≤◌, ◌≡◌, sym, ◌⊎◌, inl, inr, Bool, true,
  false, none, some, List, [], ◌∷◌, arith,
}
use spaceport_bazzar_client.Domain.Bundle.{resource_eq}
use spaceport_bazzar_client.Domain.Types.{OfferStatus, ObjectId, object_eq, is_open, Offer}
use spaceport_bazzar_client.Sim.Economy.{close_one, close, open_count, close_each, close_where}
use spaceport_bazzar_client.Sim.Economy.Invariant.{Unique}
use spaceport_bazzar_client.Sim.Economy.Invariant.Offers.{open_count-close-le, Unique-close}

module _ (test : Offer → Bool) (status : OfferStatus) (tick : ℕ) where
  -- What each single closing keeps, the loop keeps.
  pub close_each-All {κ} :
      (P : Offer → Type κ) (copy l : List Offer)
      → ((oid : ObjectId) (o : Offer) → P o → P (close_one oid status none tick o))
      → All P l
      → All P (close_each test status tick copy l)
  unfolding close_each
  close_each-All P [] l k h = h
  close_each-All P (c ∷ copy) l k h = elim (Bool-cases (test c)) [
    | inl hit ↦ rw hit (
        close_each-All P copy (close c.offer_id status none tick l) k
          (All-map P P (close_one c.offer_id status none tick) l (k c.offer_id) h))
    | inr miss ↦ rw miss (close_each-All P copy l k h)
  ]

  pub Unique-close_each :
      (copy l : List Offer) → Unique l → Unique (close_each test status tick copy l)
  unfolding close_each
  Unique-close_each [] l h = h
  Unique-close_each (c ∷ copy) l h = elim (Bool-cases (test c)) [
    | inl hit ↦ rw hit (
        Unique-close_each copy (close c.offer_id status none tick l)
          (Unique-close c.offer_id status none tick l h))
    | inr miss ↦ rw miss (Unique-close_each copy l h)
  ]

  pub open_count-close_each-le :
      (x : ℕ) (copy l : List Offer)
      → is_open status ≡ false
      → open_count x (close_each test status tick copy l) ≤ open_count x l
  unfolding close_each
  open_count-close_each-le x [] l h = omega arith
  open_count-close_each-le x (c ∷ copy) l h = elim (Bool-cases (test c)) [
    | inl hit ↦ rw hit (
        omega (
          arith,
          open_count-close_each-le x copy (close c.offer_id status none tick l) h,
          open_count-close-le c.offer_id status none tick x l h,
        ))
    | inr miss ↦ rw miss (open_count-close_each-le x copy l h)
  ]

  -- The rest of the copy will still close this offer.
  Queued : Offer → List Offer → Type 0
  Queued o [] = ⊥
  Queued o (c ∷ copy) = ((c.offer_id ≡ o.offer_id) × (test c ≡ true)) ⊎ Queued o copy

  abbrev Settles : List Offer → Offer → Type 0
  Settles copy o = (test o ≡ false) ⊎ Queued o copy

  Settles-self : (l : List Offer) → All (Settles l) l
  unfolding Queued
  Settles-self [] = tt
  Settles-self (o ∷ l) =
      (ground arith, All-imp (Settles l) (Settles (o ∷ l)) l (λ p h. ground arith) (Settles-self l))

  Settles-hit :
      (c : Offer) (copy : List Offer) (o : Offer)
      → ((p : Offer)
          → test (record p { status = status; closed_tick = some tick; transaction_id = none })
            ≡ false)
      → Settles (c ∷ copy) o
      → Settles copy (close_one c.offer_id status none tick o)
  unfolding Queued close_one
  Settles-hit c copy o k h = elim (Bool-cases (o.offer_id == c.offer_id)) [
    | inl same ↦ rw same (inl (k o))
    | inr other ↦ rw other (later other h)
  ]
    where
      later : (o.offer_id == c.offer_id) ≡ false → Settles (c ∷ copy) o → Settles copy o
      later other (inl gone) = inl gone
      later other (inr (inl (same, hit))) =
          absurd (cc ((object_eq.beq_iff o.offer_id c.offer_id).1 (sym same)))
      later other (inr (inr queued)) = inr queued

  close_each_closes :
      (copy l : List Offer)
      → ((p : Offer)
          → test (record p { status = status; closed_tick = some tick; transaction_id = none })
            ≡ false)
      → All (Settles copy) l
      → All (λ o. test o ≡ false) (close_each test status tick copy l)
  unfolding close_each Queued
  close_each_closes [] l k h = All-imp (Settles []) (λ o. test o ≡ false) l (λ o s. ground arith) h
  close_each_closes (c ∷ copy) l k h = elim (Bool-cases (test c)) [
    | inl hit ↦ rw hit (
        close_each_closes copy (close c.offer_id status none tick l) k (
          All-map (Settles (c ∷ copy)) (Settles copy) (close_one c.offer_id status none tick) l
            (λ o s. Settles-hit c copy o k s) h))
    | inr miss ↦ rw miss (
        close_each_closes copy l k
          (All-imp (Settles (c ∷ copy)) (Settles copy) l (λ o s. ground arith) h))
  ]

  -- After the loop over a copy of the list itself, no offer passes the test.
  pub close_where_closes :
      (l : List Offer)
      → ((p : Offer)
          → test (record p { status = status; closed_tick = some tick; transaction_id = none })
            ≡ false)
      → All (λ o. test o ≡ false) (close_where test status tick l)
  close_where_closes l k = close_each_closes l l k (Settles-self l)
