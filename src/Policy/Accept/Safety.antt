-- ===== src/Policy/Accept/Safety.antt =====
-- What an accepted offer costs (bazaar_client/policy/accept.py).
use spaceport_bazzar_client.Base.{
  ltb, if◌then◌else◌, Bool-cases, ℕ, ◌+◌, ◌-◌, ◌≤◌, min, ◌≡◌, inl, inr, Bool, true, false, not,
  Option, arith,
}
use spaceport_bazzar_client.Domain.Bundle.{
  Resource, water, food, components, Bundle, get, dominates, saturating_sub, is_zero,
}
use spaceport_bazzar_client.Domain.Bundle.Laws.{
  get-add, get-saturating_sub, dominates→le, le→dominates, is_zero→get,
}
use spaceport_bazzar_client.Policy.Reserves.{Urgency}
use spaceport_bazzar_client.Policy.Accept.{some_resource, remaining, accepts}

is_zero-dominates : (b cost : Bundle) → is_zero cost ≡ true → dominates b cost ≡ true
is_zero-dominates b cost h = le→dominates b cost (λ r. omega (arith, is_zero→get cost h r))

-- An offer that is accepted can be paid from the uncommitted stock.
pub accepts-payable :
    (cost gain available reserve : Bundle) (urgency : Resource → Urgency)
    (specialty : Option Resource) (limit : Option ℕ) (end_game : Bool)
    → accepts cost gain available reserve urgency specialty limit end_game ≡ true
    → dominates available cost ≡ true
unfolding accepts
accepts-payable cost gain available reserve urgency specialty limit end_game h =
    ground (arith, is_zero-dominates available cost)

get-remaining :
    (available cost gain : Bundle) (r : Resource)
    → get (remaining available cost gain) r ≡ get available r - get cost r + get gain r
get-remaining available cost gain r =
    omega
      (arith, get-add (saturating_sub available cost) gain r, get-saturating_sub available cost r)

some_resource-false :
    (test : Resource → Bool) (r : Resource) → some_resource test ≡ false → test r ≡ false
some_resource-false test water h = ground arith
some_resource-false test food h = ground arith
some_resource-false test components h = ground arith

-- The guards of `accepts` in their order, with the last one singled out.
last_guard :
    (unneeded gift piled payable spent price : Bool)
    → (if unneeded
        then false
        else if gift
        then true
        else if piled
        then false
        else if not payable
        then false
        else if spent
        then false
        else price)
      ≡ true
    → gift ≡ false
    → spent ≡ false
last_guard unneeded gift piled payable spent price h g = ground arith

accepts-protects :
    (cost gain available reserve : Bundle) (urgency : Resource → Urgency)
    (specialty : Option Resource) (limit : Option ℕ) (end_game : Bool)
    → accepts cost gain available reserve urgency specialty limit end_game ≡ true
    → is_zero cost ≡ false
    → some_resource
        (λ r. ltb (get (remaining available cost gain) r) (min (get available r) (get reserve r)))
      ≡ false
unfolding accepts
accepts-protects cost gain available reserve urgency specialty limit end_game h paid =
    last_guard _ _ _ _ _ _ h paid

-- An offer that is accepted is a gift, or it can be paid from the uncommitted stock, and what is left
-- of each resource, what it brings included, is at least the reserve or what was there before.
pub accepts_safely :
    (cost gain available reserve : Bundle) (urgency : Resource → Urgency)
    (specialty : Option Resource) (limit : Option ℕ) (end_game : Bool) (r : Resource)
    → accepts cost gain available reserve urgency specialty limit end_game ≡ true
    → (get cost r ≤ get available r)
      × (min (get available r) (get reserve r) ≤ get available r - get cost r + get gain r)
accepts_safely cost gain available reserve urgency specialty limit end_game r h =
    let held =
      dominates→le available cost
        (accepts-payable cost gain available reserve urgency specialty limit end_game h) r in
    elim (Bool-cases (is_zero cost)) [
      | inl gift ↦ (held, omega (arith, is_zero→get cost gift r))
      | inr paid ↦
          let kept =
            some_resource-false
              (λ s.
                ltb (get (remaining available cost gain) s) (min (get available s) (get reserve s)))
              r
              (accepts-protects cost gain available reserve urgency specialty limit end_game h
                paid) in
          (held, ground (arith, get-remaining available cost gain r))
    ]
