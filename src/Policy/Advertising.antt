-- ===== src/Policy/Advertising.antt =====
-- bazaar_client/policy/advertising.py: what to publish. A frozen set of resources is its membership
-- test. The reason of a decision is a text for people and is left out.
pub mod Lifetime
use spaceport_bazzar_client.Base.{
  ltb, leb, if◌then◌else◌, ◌==◌, nat_eq, ℕ, ◌+◌, ◌-◌, min, Bool, true, false, not, ◌&&◌, ◌||◌,
  Option, none, some,
}
use spaceport_bazzar_client.Domain.Bundle.{
  Resource, water, food, components, resource_eq, Bundle, get, all_resources,
}
use spaceport_bazzar_client.Domain.Types.{object_eq, Rules, Advertisement}
use spaceport_bazzar_client.Execution.Actions.{AdvertiseAction, Action}

abbrev pub min_listable_qty : ℕ
min_listable_qty = 2

abbrev pub default_ad_ttl : ℕ
default_ad_ttl = 8

abbrev pub ad_renew_margin : ℕ
ad_renew_margin = 2

abbrev pub min_ad_lifetime : ℕ
min_ad_lifetime = 3

-- `bool(set)`
abbrev pub any_resource : (Resource → Bool) → Bool
any_resource test = test water || test food || test components

abbrev pub same_bool : Bool → Bool → Bool
same_bool true b = b
same_bool false b = not b

-- `==` on two sets
abbrev pub same_set : (Resource → Bool) → (Resource → Bool) → Bool
same_set f g = all_resources (λ r. same_bool (f r) (g r))

-- `surplus.get(r) >= MIN_LISTABLE_QTY`
abbrev pub sells : Bundle → Resource → Bool
sells surplus r = leb min_listable_qty (get surplus r)

-- `deficit.get(r) > 0 or r in critical`
abbrev pub seeks : Bundle → (Resource → Bool) → Resource → Bool
seeks deficit critical r = ltb 0 (get deficit r) || critical r

-- `ttl`; it is at most 0 in the code just when it is 0 here
abbrev pub ad_ttl : ℕ → Rules → ℕ
ad_ttl tick rules =
    min default_ad_ttl (min rules.max_publication_ttl_ticks (rules.duration_ticks - tick))

-- The part of `decide_advertisement` for an advertisement that stands.
unfoldable pub revise : AdvertiseAction → (Resource → Bool) → Advertisement → ℕ → Option Action
revise proposed critical current tick =
    if any_resource (λ r. critical r && not (current.seeking r))
    then some (Action.advertise proposed)
    else if not (any_resource proposed.selling) && not (any_resource proposed.seeking)
    then some (Action.withdraw current.advertisement_id)
    else if not
          (same_set proposed.selling current.selling && same_set proposed.seeking current.seeking)
        && leb (current.created_tick + min_ad_lifetime) tick
    then some (Action.advertise proposed)
    else if leb current.expires_tick (tick + ad_renew_margin)
    then some (Action.advertise proposed)
    else none

-- `decide_advertisement`: the action of the decision
unfoldable pub decide_advertisement :
    Bundle → Bundle → (Resource → Bool) → Option Advertisement → ℕ → Rules → Option Action
unfolding revise
decide_advertisement surplus deficit critical current tick rules =
    let proposed : AdvertiseAction = record {
      selling = sells surplus;
      seeking = seeks deficit critical;
      expires_tick = tick + ad_ttl tick rules;
    } in
    if ad_ttl tick rules == 0 then none else elim current [
      | none ↦
          if not (any_resource (sells surplus)) && not (any_resource (seeks deficit critical))
          then none
          else some (Action.advertise proposed)
      | some standing ↦ revise proposed critical standing tick
    ]
