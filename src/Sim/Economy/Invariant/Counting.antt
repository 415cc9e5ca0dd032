-- ===== src/Sim/Economy/Invariant/Counting.antt =====
-- The command counts of bazaar_sim/economy.py, and offers when the economy around them changes.
use spaceport_bazzar_client.Base.{
  if◌then◌else◌, ◌==◌, nat_eq, All, All-imp, ℕ, ◌≤◌, ◌≡◌, refl, List, [], ◌∷◌, arith,
}
use spaceport_bazzar_client.Domain.Bundle.{resource_eq}
use spaceport_bazzar_client.Domain.Types.{object_eq, Offer}
use spaceport_bazzar_client.Sim.Economy.{Economy, count_of, set_count, counted}
use spaceport_bazzar_client.Sim.Economy.Invariant.{IsKnown, IsFormed}

pub count_of-set_count :
    (x sid n : ℕ) (l : List (ℕ × ℕ))
    → count_of x (set_count sid n l) ≡ (if sid == x then n else count_of x l)
unfolding set_count
count_of-set_count x sid n [] = refl
count_of-set_count x sid n ((j, m) ∷ l) = ground (arith, count_of-set_count x sid n l)

-- An offer stays formed when ids are given out and stations come to no harm.
pub IsFormed-later :
    (e e' : Economy) (o : Offer)
    → e.next_id ≤ e'.next_id
    → e'.tick ≡ e.tick
    → ((x : ℕ) → IsKnown x e.stations → IsKnown x e'.stations)
    → IsFormed e o
    → IsFormed e' o
IsFormed-later e e' o ids ticks known h = record {
  number = h.number;
  numbered = h.numbered;
  given_out = omega arith;
  distinct = h.distinct;
  proposer_known = known o.proposer_id h.proposer_known;
  recipient_known = known o.recipient_id h.recipient_known;
  gives = h.gives;
  live = λ now. omega (arith, h.live now);
  dated = h.dated;
}

pub counted-IsFormed :
    (sid : ℕ) (e : Economy)
    → All (IsFormed e) e.offers
    → All (IsFormed (counted sid e)) (counted sid e).offers
unfolding counted
counted-IsFormed sid e =
    All-imp (IsFormed e) (IsFormed (counted sid e)) e.offers
      (λ o. IsFormed-later e (counted sid e) o (omega arith) refl (λ x k. k))
