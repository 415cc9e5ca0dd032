-- ===== src/Policy/Advertising/Lifetime.antt =====
-- The decision on an advertisement against the rules of publication
-- (bazaar_client/policy/advertising.py).
use spaceport_bazzar_client.Base.{
  ltb, leb, if◌then◌else◌, ◌==◌, nat_eq, Bool-cases, ℕ, ◌+◌, ◌≤◌, ◌<◌, ◌≡◌, refl, ◌≢◌, inl, inr,
  Bool, true, false, not, ◌&&◌, Option, none, some, arith,
}
use spaceport_bazzar_client.Domain.Bundle.{Resource, water, food, components, resource_eq, Bundle}
use spaceport_bazzar_client.Domain.Types.{object_eq, Rules, Advertisement}
use spaceport_bazzar_client.Execution.Actions.{AdvertiseAction, Action}
use spaceport_bazzar_client.Sim.Economy.{lifetime_ok}
use spaceport_bazzar_client.Policy.Advertising.{
  ad_renew_margin, min_ad_lifetime, any_resource, sells, seeks, ad_ttl, revise,
  decide_advertisement,
}

abbrev expiry_of : Option Action → ℕ → ℕ
expiry_of (some (Action.advertise a)) n = a.expires_tick
expiry_of _ n = n

revise-expiry_of :
    (proposed : AdvertiseAction) (critical : Resource → Bool) (standing : Advertisement) (tick : ℕ)
    → expiry_of (revise proposed critical standing tick) proposed.expires_tick
      ≡ proposed.expires_tick
unfolding revise
revise-expiry_of proposed critical standing tick = ground arith

decide_advertisement-expiry_of :
    (surplus deficit : Bundle) (critical : Resource → Bool) (current : Option Advertisement)
    (tick : ℕ) (rules : Rules)
    → expiry_of
        (decide_advertisement surplus deficit critical current tick rules)
        (tick + ad_ttl tick rules)
      ≡ tick + ad_ttl tick rules
unfolding decide_advertisement
decide_advertisement-expiry_of surplus deficit critical none tick rules = ground arith
decide_advertisement-expiry_of surplus deficit critical (some standing) tick rules = ground (
  arith,
  revise-expiry_of
      (record {
        selling = sells surplus;
        seeking = seeks deficit critical;
        expires_tick = tick + ad_ttl tick rules;
      })
      critical standing tick,
)

decide_advertisement-none :
    (surplus deficit : Bundle) (critical : Resource → Bool) (current : Option Advertisement)
    (tick : ℕ) (rules : Rules)
    → ad_ttl tick rules ≡ 0
    → decide_advertisement surplus deficit critical current tick rules ≡ none
unfolding decide_advertisement
decide_advertisement-none surplus deficit critical current tick rules h = rw h refl

lifetime_ok-ad_ttl :
    (rules : Rules) (tick : ℕ)
    → 0 < ad_ttl tick rules
    → lifetime_ok rules tick rules.max_publication_ttl_ticks (tick + ad_ttl tick rules) ≡ true
lifetime_ok-ad_ttl rules tick h = ground arith

-- The lifetime that is asked for passes the server's test, and it ends within eight ticks.
pub decide_advertisement_lifetime :
    (surplus deficit : Bundle) (critical : Resource → Bool) (current : Option Advertisement)
    (tick : ℕ) (rules : Rules) (a : AdvertiseAction)
    → decide_advertisement surplus deficit critical current tick rules ≡ some (Action.advertise a)
    → (lifetime_ok rules tick rules.max_publication_ttl_ticks a.expires_tick ≡ true)
      × (a.expires_tick ≤ tick + 8)
decide_advertisement_lifetime surplus deficit critical current tick rules a h =
    let asked : a.expires_tick ≡ tick + ad_ttl tick rules =
      rw h at (decide_advertisement-expiry_of surplus deficit critical current tick rules) in
    elim (Bool-cases (ltb 0 (ad_ttl tick rules))) [
      | inl left ↦ rw asked (lifetime_ok-ad_ttl rules tick (ground arith), omega arith)
      | inr over ↦
          let nothing =
            decide_advertisement-none surplus deficit critical current tick rules (ground arith) in
          absurd (cc)
    ]

-- What stands after the decision seeks the resource.
abbrev pub sought_after : Option Action → Option Advertisement → Resource → Bool
sought_after (some (Action.advertise a)) current r = a.seeking r
sought_after (some _) current r = false
sought_after none none r = false
sought_after none (some standing) r = standing.seeking r

-- While a lifetime remains, a critical resource is sought by what stands after the decision: by a
-- new advertisement, or by the one that is kept.
pub decide_advertisement_seeks :
    (surplus deficit : Bundle) (critical : Resource → Bool) (current : Option Advertisement)
    (tick : ℕ) (rules : Rules) (r : Resource)
    → 0 < ad_ttl tick rules
    → critical r ≡ true
    → sought_after (decide_advertisement surplus deficit critical current tick rules) current r
      ≡ true
unfolding decide_advertisement
decide_advertisement_seeks surplus deficit critical none tick rules water t h = ground arith
decide_advertisement_seeks surplus deficit critical none tick rules food t h = ground arith
decide_advertisement_seeks surplus deficit critical none tick rules components t h = ground arith
decide_advertisement_seeks surplus deficit critical (some standing) tick rules water t h =
    ground arith
decide_advertisement_seeks surplus deficit critical (some standing) tick rules food t h =
    ground arith
decide_advertisement_seeks surplus deficit critical (some standing) tick rules components t h =
    ground arith

revise_settles :
    (proposed : AdvertiseAction) (critical : Resource → Bool) (standing : Advertisement) (tick : ℕ)
    (a : AdvertiseAction)
    → any_resource (λ r. critical r && not (standing.seeking r)) ≡ false
    → tick + ad_renew_margin < standing.expires_tick
    → tick < standing.created_tick + min_ad_lifetime
    → revise proposed critical standing tick ≢ some (Action.advertise a)
unfolding revise
revise_settles proposed critical standing tick a known fresh new =
    let early : leb (standing.created_tick + min_ad_lifetime) tick ≡ false = ground arith in
    let far : leb standing.expires_tick (tick + ad_renew_margin) ≡ false = ground arith in
    rw (known, early, far) (go _ _)
  where
    go :
        (empty changed : Bool)
        → (if empty
            then some (Action.withdraw standing.advertisement_id)
            else if changed && false
            then some (Action.advertise proposed)
            else none)
          ≢ some (Action.advertise a)
    go empty changed = λ e. ground arith

-- A standing advertisement that seeks every critical resource and is not about to expire is not
-- replaced in the first three ticks of its life.
pub decide_advertisement_settles :
    (surplus deficit : Bundle) (critical : Resource → Bool) (standing : Advertisement) (tick : ℕ)
    (rules : Rules) (a : AdvertiseAction)
    → any_resource (λ r. critical r && not (standing.seeking r)) ≡ false
    → tick + ad_renew_margin < standing.expires_tick
    → tick < standing.created_tick + min_ad_lifetime
    → decide_advertisement surplus deficit critical (some standing) tick rules
      ≢ some (Action.advertise a)
unfolding decide_advertisement
decide_advertisement_settles surplus deficit critical standing tick rules a known fresh new =
    elim (Bool-cases (ad_ttl tick rules == 0)) [
      | inl over ↦ rw over (λ e. cc)
      | inr left ↦ rw left (
          revise_settles
            (record {
              selling = sells surplus;
              seeking = seeks deficit critical;
              expires_tick = tick + ad_ttl tick rules;
            })
            critical standing tick a known fresh new)
    ]
