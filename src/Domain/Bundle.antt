-- ===== src/Domain/Bundle.antt =====
-- `Resource` and `Bundle` of bazaar_client/domain/types.py. `Bundle.__post_init__` refuses negative
-- quantities, so a bundle that exists holds natural numbers; an operation that would build another
-- one raises `NegativeBundleError`, here `none`.
pub mod Laws
use spaceport_bazzar_client.Base.{
  leb, if◌then◌else◌, Eq, ◌==◌, nat_eq, ℕ, ◌+◌, ◌-◌, ◌*◌, String, ◌≡◌, ◌↔◌, Bool, true, false, ◌&&◌,
  Option, none, some, List, [], ◌∷◌, arith,
}
use spaceport_bazzar_client.Base.Int.{ℤ, pos, pos_part, sub_ℕ, leb_ℤ}

pub data Resource : Type 0 where
  water food components : Resource

abbrev same_resource : Resource → Resource → Bool
same_resource water water = true
same_resource food food = true
same_resource components components = true
same_resource _ _ = false

pub same_resource_iff : (a b : Resource) → (same_resource a b ≡ true) ↔ (a ≡ b)
same_resource_iff a b = ground arith

instance abbrev pub resource_eq : Eq Resource
resource_eq = record { beq = same_resource; beq_iff = same_resource_iff }

-- `for r in Resource`
abbrev pub resources : List Resource
resources = water ∷ food ∷ components ∷ []

pub record Bundle : Type 0 where
  pub water : ℕ
  pub food : ℕ
  pub components : ℕ

abbrev pub get : Bundle → Resource → ℕ
get b water = b.water
get b food = b.food
get b components = b.components

-- `Bundle(*(f(r) for r in Resource))` with no negative quantity
abbrev pub bundle_of : (Resource → ℕ) → Bundle
bundle_of f = record { water = f water; food = f food; components = f components }

-- `all(test(r) for r in Resource)`
abbrev pub all_resources : (Resource → Bool) → Bool
all_resources test = test water && test food && test components

abbrev pub zero_bundle : Bundle
zero_bundle = record { water = 0; food = 0; components = 0 }

unfoldable pub single : Resource → ℕ → Bundle
single r quantity = bundle_of (λ s. if s == r then quantity else 0)

unfoldable pub add : Bundle → Bundle → Bundle
add a b = bundle_of (λ r. get a r + get b r)

unfoldable pub dominates : Bundle → Bundle → Bool
dominates a b = all_resources (λ r. leb (get b r) (get a r))

-- `__post_init__` on three signed quantities
unfoldable pub checked : (Resource → ℤ) → Option Bundle
checked f =
    if all_resources (λ r. leb_ℤ (pos 0) (f r))
    then some (bundle_of (λ r. pos_part (f r)))
    else none

-- `__sub__`, which raises `NegativeBundleError` rather than going negative
unfoldable pub sub : Bundle → Bundle → Option Bundle
unfolding checked
sub a b = checked (λ r. sub_ℕ (get a r) (get b r))

unfoldable pub saturating_sub : Bundle → Bundle → Bundle
saturating_sub a b = bundle_of (λ r. get a r - get b r)

unfoldable pub is_zero : Bundle → Bool
is_zero b = all_resources (λ r. get b r == 0)

unfoldable pub total : Bundle → ℕ
total b = b.water + b.food + b.components

-- `scale`, by a factor that is not negative
pub scale : Bundle → ℕ → Bundle
scale b factor = bundle_of (λ r. get b r * factor)

-- `as_dict`
pub as_dict : Bundle → List (String × ℕ)
as_dict b = ("water", b.water) ∷ ("food", b.food) ∷ ("components", b.components) ∷ []
