-- ===== src/Policy/Pricing/Terms.antt =====
-- What the client offers in a trade (bazaar_client/policy/pricing.py).
use mathlib.Core.Option.{some-injective}
use mathlib.Core.Path.{subst}
use native.Mathlib.Numerals.{unary_clauses}
use spaceport_bazzar_client.Base.{
  ◌==◌, nat_eq, Bool-cases, >>=-eq_some, ℕ, zero, suc, ◌-◌, ◌*◌, ◌/◌, ◌^◌, ◌≤◌, ◌<◌, max, ◌≡◌, sym,
  ap, ◌≢◌, ◌↔◌, ◌⊎◌, inl, inr, Bool, true, false, ◌||◌, Option, none, some, arith,
}
use spaceport_bazzar_client.Domain.Bundle.{
  Resource, resource_eq, Bundle, get, single, dominates, is_zero, total,
}
use spaceport_bazzar_client.Domain.Types.{object_eq}
use spaceport_bazzar_client.Policy.Reserves.{Urgency}
use spaceport_bazzar_client.Policy.Pricing.{
  premium_of_stock, premium_for, priced_give_quantity, term_quantities, compute_terms,
}

-- For any price: at least one for one, and at most eight for one.
pub priced_give_quantity_bounds :
    (want_qty : ℕ) (urgency : Urgency) (stock : Option ℕ)
    → (want_qty ≤ priced_give_quantity want_qty urgency stock)
      × (priced_give_quantity want_qty urgency stock ≤ want_qty * 8)
unfolding priced_give_quantity
priced_give_quantity_bounds want_qty urgency stock = omega arith

-- The cap on payments, in halves for each unit received.
abbrev pub cap_of : Option ℕ → ℕ
cap_of none = 16
cap_of (some halves) = halves

term_quantities_bounds :
    (affordable want_qty : ℕ) (urgency : Urgency) (limit stock : Option ℕ) (end_game : Bool)
    (give receive : ℕ)
    → 0 < affordable
    → 0 < want_qty
    → term_quantities affordable want_qty urgency limit stock end_game ≡ some (give, receive)
    → (0 < give) × (give ≤ affordable) × (0 < receive) × (2 * give ≤ receive * cap_of limit)
unfolding term_quantities
term_quantities_bounds affordable want_qty urgency (some halves) stock end_game give receive a w h =
    ground arith
term_quantities_bounds affordable want_qty urgency none stock true give receive a w h = ground arith
term_quantities_bounds affordable want_qty urgency none stock false give receive a w h =
    let q = premium_for urgency stock in
    ground (
      arith,
      priced_give_quantity_bounds want_qty urgency stock,
      priced_give_quantity_bounds (max 1 (affordable * q.den / q.num)) urgency stock,
    )

total-single : (r : Resource) (n : ℕ) → total (single r n) ≡ n
unfolding single total
total-single r n = ground arith

single-total : (r : Resource) (n : ℕ) → single r n ≡ single r (total (single r n))
single-total r n = ap (single r) (sym (total-single r n))

pub is_zero-single : (r : Resource) (n : ℕ) → 0 < n → is_zero (single r n) ≡ false
unfolding single is_zero
is_zero-single r n h = ground arith

dominates-single :
    (b : Bundle) (r : Resource) (n : ℕ) → n ≤ get b r → dominates b (single r n) ≡ true
unfolding single dominates
dominates-single b r n h = ground arith

-- Terms that are agreed give units of `give_resource` only, ask for units of `want` only, and these
-- are two resources. They give and ask for at least one unit, what they give is available, and it is
-- at most eight units for one, or at most the cap on payments where one is given.
pub compute_terms_bounds :
    (want : Resource) (want_qty : ℕ) (give_resource : Resource) (available : Bundle)
    (urgency : Urgency) (limit stock : Option ℕ) (end_game : Bool) (give receive : Bundle)
    → compute_terms want want_qty give_resource available urgency limit stock end_game
      ≡ some (give, receive)
    → (give ≡ single give_resource (total give))
      × (receive ≡ single want (total receive))
      × (dominates available give ≡ true)
      × (is_zero give ≡ false)
      × (is_zero receive ≡ false)
      × (want ≢ give_resource)
      × (2 * total give ≤ total receive * cap_of limit)
unfolding compute_terms
compute_terms_bounds want want_qty give_resource available urgency limit stock end_game give receive
      h =
    elim (Bool-cases (want == give_resource || want_qty == 0 || get available give_resource == 0)) [
      | inl refused ↦
          let nothing : ◌≡◌ {A = Option (Bundle × Bundle)} none (some (give, receive)) =
            rw refused at h in
          absurd (cc)
      | inr passed ↦
          let ((g, w), found, made) =
            >>=-eq_some
              (term_quantities (get available give_resource) want_qty urgency limit stock end_game)
              _ (rw passed at h) in
          let (positive, held, some_asked, cap) =
            term_quantities_bounds (get available give_resource) want_qty urgency limit stock
              end_game g w (ground arith) (ground arith) found in
          subst
            (λ (p : Bundle × Bundle).
              (p.0 ≡ single give_resource (total p.0))
              × (p.1 ≡ single want (total p.1))
              × (dominates available p.0 ≡ true)
              × (is_zero p.0 ≡ false)
              × (is_zero p.1 ≡ false)
              × (want ≢ give_resource)
              × (2 * total p.0 ≤ total p.1 * cap_of limit))
            (some-injective _ _ made)
            (
              single-total give_resource g,
              single-total want w,
              dominates-single available give_resource g held,
              is_zero-single give_resource g positive,
              is_zero-single want w some_asked,
              ground arith,
              rw (total-single give_resource g, total-single want w) cap,
            )
    ]

term_quantities-none :
    (affordable want_qty : ℕ) (urgency : Urgency) (stock : Option ℕ) (end_game : Bool)
    → term_quantities affordable want_qty urgency none stock end_game ≢ none
unfolding term_quantities
term_quantities-none affordable want_qty urgency stock true = λ e. cc
term_quantities-none affordable want_qty urgency stock false = λ e. ground arith

-- Without a cap on payments, terms are refused exactly when the same resource stands on both sides,
-- nothing is asked for, or nothing can be given.
pub compute_terms_refuses :
    (want : Resource) (want_qty : ℕ) (give_resource : Resource) (available : Bundle)
    (urgency : Urgency) (stock : Option ℕ) (end_game : Bool)
    → (compute_terms want want_qty give_resource available urgency none stock end_game ≡ none)
      ↔ ((want ≡ give_resource) ⊎ (want_qty ≡ 0) ⊎ (get available give_resource ≡ 0))
unfolding compute_terms
compute_terms_refuses want want_qty give_resource available urgency stock end_game =
    ground
      (arith, term_quantities-none (get available give_resource) want_qty urgency stock end_game)

four-five : (k : ℕ) → (4 ^ k ≤ 5 ^ k) × (0 < 4 ^ k)
four-five zero = omega arith
four-five (suc k) = simp unary_clauses (omega (arith, four-five k))

-- A premium is between one and eight.
pub premium_for_bounds :
    (urgency : Urgency) (stock : Option ℕ)
    → let q = premium_for urgency stock in (0 < q.den) × (q.den ≤ q.num) × (q.num ≤ 8 * q.den)
unfolding premium_for premium_of_stock
premium_for_bounds urgency none = ground arith
premium_for_bounds urgency (some stock) = ground (arith, four-five (7 - stock))
