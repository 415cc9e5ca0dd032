-- ===== src/Domain/Bundle/Laws.antt =====
-- Bundle arithmetic (bazaar_client/domain/types.py), one resource at a time.
use spaceport_bazzar_client.Base.{
  if◌then◌else◌, ◌==◌, nat_eq, sum_by, ℕ, ◌+◌, ◌-◌, ◌*◌, ◌≤◌, String, ◌≡◌, refl, true, false, none,
  some, arith,
}
use spaceport_bazzar_client.Domain.Bundle.{
  Resource, water, food, components, resource_eq, Bundle, get, bundle_of, zero_bundle, single, add,
  dominates, sub, saturating_sub, is_zero, total, scale, as_dict,
}

pub get-bundle_of : (f : Resource → ℕ) (r : Resource) → get (bundle_of f) r ≡ f r
get-bundle_of f water = refl
get-bundle_of f food = refl
get-bundle_of f components = refl

-- A bundle is its three quantities.
pub eq_of_get : (a b : Bundle) → ((r : Resource) → get a r ≡ get b r) → a ≡ b
eq_of_get a b h = ground (arith, h water, h food, h components)

pub get-add : (a b : Bundle) (r : Resource) → get (add a b) r ≡ get a r + get b r
unfolding add
get-add a b r = get-bundle_of (λ s. get a s + get b s) r

pub get-saturating_sub :
    (a b : Bundle) (r : Resource) → get (saturating_sub a b) r ≡ get a r - get b r
unfolding saturating_sub
get-saturating_sub a b r = get-bundle_of (λ s. get a s - get b s) r

pub get-single :
    (s : Resource) (n : ℕ) (r : Resource) → get (single s n) r ≡ (if r == s then n else 0)
unfolding single
get-single s n r = get-bundle_of (λ t. if t == s then n else 0) r

pub total-single : (s : Resource) (n : ℕ) → total (single s n) ≡ n
unfolding single total
total-single s n = ground arith

pub dominates→le : (a b : Bundle) → dominates a b ≡ true → (r : Resource) → get b r ≤ get a r
unfolding dominates
dominates→le a b h r = ground arith

pub le→dominates : (a b : Bundle) → ((r : Resource) → get b r ≤ get a r) → dominates a b ≡ true
unfolding dominates
le→dominates a b h = ground (arith, h water, h food, h components)

-- A strict subtraction raises exactly when some quantity would go negative.
pub sub-eq_saturating_sub :
    (a b : Bundle) → dominates a b ≡ true → sub a b ≡ some (saturating_sub a b)
unfolding dominates sub saturating_sub
sub-eq_saturating_sub a b h = ground arith

pub sub-eq_none : (a b : Bundle) → dominates a b ≡ false → sub a b ≡ none
unfolding dominates sub
sub-eq_none a b h = ground arith

pub is_zero→get : (b : Bundle) → is_zero b ≡ true → (r : Resource) → get b r ≡ 0
unfolding is_zero
is_zero→get b h r = ground arith

pub get-zero_bundle : (r : Resource) → get zero_bundle r ≡ 0
get-zero_bundle r = ground arith

total-scale : (b : Bundle) (factor : ℕ) → total (scale b factor) ≡ total b * factor
unfolding scale total
total-scale b factor = ground arith

as_dict-total : (b : Bundle) → sum_by (λ (e : String × ℕ). e.1) (as_dict b) ≡ total b
unfolding as_dict total
as_dict-total b = omega arith
