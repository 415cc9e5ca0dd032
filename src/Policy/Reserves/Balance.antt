-- ===== src/Policy/Reserves/Balance.antt =====
-- The balance between imports (bazaar_client/policy/reserves.py).
use spaceport_bazzar_client.Base.{◌≡◌, refl, ◌≢◌, true, false, some, arith}
use spaceport_bazzar_client.Domain.Bundle.{Resource, water, food, components, Bundle}
use spaceport_bazzar_client.Policy.Reserves.{over_ceiling}

-- For a planet with a specialty, two resources are never over their import ceilings at once.
pub over_ceiling_one :
    (a b : Resource) (available : Bundle) (specialty : Resource)
    → a ≢ b
    → over_ceiling a available (some specialty) ≡ true
    → over_ceiling b available (some specialty) ≡ false
unfolding over_ceiling
over_ceiling_one water water available water ne h = absurd (ne refl)
over_ceiling_one water water available food ne h = absurd (ne refl)
over_ceiling_one water water available components ne h = absurd (ne refl)
over_ceiling_one water food available water ne h = ground arith
over_ceiling_one water food available food ne h = ground arith
over_ceiling_one water food available components ne h = ground arith
over_ceiling_one water components available water ne h = ground arith
over_ceiling_one water components available food ne h = ground arith
over_ceiling_one water components available components ne h = ground arith
over_ceiling_one food water available water ne h = ground arith
over_ceiling_one food water available food ne h = ground arith
over_ceiling_one food water available components ne h = ground arith
over_ceiling_one food food available water ne h = absurd (ne refl)
over_ceiling_one food food available food ne h = absurd (ne refl)
over_ceiling_one food food available components ne h = absurd (ne refl)
over_ceiling_one food components available water ne h = ground arith
over_ceiling_one food components available food ne h = ground arith
over_ceiling_one food components available components ne h = ground arith
over_ceiling_one components water available water ne h = ground arith
over_ceiling_one components water available food ne h = ground arith
over_ceiling_one components water available components ne h = ground arith
over_ceiling_one components food available water ne h = ground arith
over_ceiling_one components food available food ne h = ground arith
over_ceiling_one components food available components ne h = ground arith
over_ceiling_one components components available water ne h = absurd (ne refl)
over_ceiling_one components components available food ne h = absurd (ne refl)
over_ceiling_one components components available components ne h = absurd (ne refl)
