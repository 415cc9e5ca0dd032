-- ===== src/Policy/Decide/Publishing.antt =====
-- The advertisement of a decision is in order (bazaar_client/policy/decide.py).
use mathlib.Core.Path.{subst}
use spaceport_bazzar_client.Base.{
  ◌==◌, nat_eq, Bool-cases, Option-cases, guarded-eq_some, ℕ, ◌+◌, ◌≡◌, refl, ap, ◌∙◌, inl, inr,
  Bool, false, Option, none, some, arith,
}
use spaceport_bazzar_client.Domain.Bundle.{Resource, resource_eq, Bundle}
use spaceport_bazzar_client.Domain.Types.{
  object_eq, Rules, Advertisement, Snapshot, outgoing_open_offers, own_advertisement,
}
use spaceport_bazzar_client.World.Counterparties.{CounterpartyModel}
use spaceport_bazzar_client.Execution.Actions.{AdvertiseAction, Action}
use spaceport_bazzar_client.Policy.Memory.{PolicyMemory}
use spaceport_bazzar_client.Policy.Reserves.{
  compute_urgency, surplus_above_reserve, deficit_below_reserve, production_payment_limit,
  excess_over_cap, comfortably_supplied,
}
use spaceport_bazzar_client.Policy.Advertising.{sells, seeks, ad_ttl, revise, decide_advertisement}
use spaceport_bazzar_client.Policy.Advertising.Lifetime.{decide_advertisement_lifetime}
use spaceport_bazzar_client.Policy.Decide.Turn.{Turn, act}
use spaceport_bazzar_client.Policy.Decide.Outgoing.{withdraw_dangerous, wanted_quantities}
use spaceport_bazzar_client.Policy.Decide.Gifts.{give_excess}
use spaceport_bazzar_client.Policy.Decide.Pipeline.{
  is_critical, advertised_need, advertised_surplus, refresh_advertisement, advertise_step,
  rearrange,
}
use spaceport_bazzar_client.Policy.Decide.Kept.{IsSendable, Kept, act-Kept}
use spaceport_bazzar_client.Policy.Decide.Listed.{
  outgoing_open_offers-IsProposed, own_advertisement-IsPosted,
}
use spaceport_bazzar_client.Sim.Economy.Invariant.{Unique}
use spaceport_bazzar_client.Policy.Decide.Offering.{withdraw_dangerous-Kept}
use spaceport_bazzar_client.Policy.Decide.Giving.{give_excess-Kept, give_excess-counterparties}

-- The decision on an advertisement is an advertisement or the withdrawal of the current one.
abbrev IsPublication : Option Advertisement → Action → Type 0
IsPublication current (Action.advertise a) = Unit
IsPublication current (Action.withdraw oid) =
    (posted : Advertisement) × (posted.advertisement_id ≡ oid) × (current ≡ some posted)
IsPublication current _ = ⊥

revise-IsPublication :
    (proposed : AdvertiseAction) (pressing : Resource → Bool) (standing : Advertisement) (tick : ℕ)
    (a : Action)
    → revise proposed pressing standing tick ≡ some a
    → IsPublication (some standing) a
unfolding revise
revise-IsPublication proposed pressing standing tick (Action.advertise a) e = tt
revise-IsPublication proposed pressing standing tick (Action.withdraw a) e =
    (standing, ground arith, refl)
revise-IsPublication proposed pressing standing tick (Action.offer a) e = ground arith
revise-IsPublication proposed pressing standing tick (Action.accept a) e = ground arith
revise-IsPublication proposed pressing standing tick Action.sync e = ground arith

decide_advertisement-IsPublication :
    (surplus deficit : Bundle) (pressing : Resource → Bool) (current : Option Advertisement)
    (tick : ℕ) (rules : Rules) (a : Action)
    → decide_advertisement surplus deficit pressing current tick rules ≡ some a
    → IsPublication current a
unfolding decide_advertisement
decide_advertisement-IsPublication surplus deficit pressing none tick rules (Action.advertise a) e =
    tt
decide_advertisement-IsPublication surplus deficit pressing none tick rules (Action.withdraw a) e =
    absurd (ground arith)
decide_advertisement-IsPublication surplus deficit pressing none tick rules (Action.offer a) e =
    ground arith
decide_advertisement-IsPublication surplus deficit pressing none tick rules (Action.accept a) e =
    ground arith
decide_advertisement-IsPublication surplus deficit pressing none tick rules Action.sync e =
    ground arith
decide_advertisement-IsPublication surplus deficit pressing (some standing) tick rules a e =
    revise-IsPublication
      (record {
        selling = sells surplus;
        seeking = seeks deficit pressing;
        expires_tick = tick + ad_ttl tick rules;
      })
      pressing standing tick a (guarded-eq_some _ _ e)

module _ (model : CounterpartyModel) (snap : Snapshot) (limit : ℕ) (stock : Bundle) where
  withdraw_posted-Kept :
      (posted : Advertisement) (t : Turn)
      → (t.budget == 0) ≡ false
      → own_advertisement snap ≡ some posted
      → Kept model snap limit stock t
      → Kept model snap limit stock (act (Action.withdraw posted.advertisement_id) t)
  withdraw_posted-Kept posted t left found k =
      act-Kept model snap limit stock (Action.withdraw posted.advertisement_id) t left refl
        (inr (posted, refl, own_advertisement-IsPosted snap posted found)) k

  publish-Kept :
      (a : Action) (t : Turn)
      → (t.budget == 0) ≡ false
      → IsPublication (own_advertisement snap) a
      → ((b : AdvertiseAction)
          → a ≡ Action.advertise b
          → IsSendable model snap (Action.advertise b))
      → Kept model snap limit stock t
      → Kept model snap limit stock (act a t)
  publish-Kept (Action.advertise b) t left p f k =
      act-Kept model snap limit stock (Action.advertise b) t left refl (f b refl) k
  publish-Kept (Action.withdraw oid) t left (posted, same, found) f k =
      subst (λ i. Kept model snap limit stock (act (Action.withdraw i) t)) same
        (withdraw_posted-Kept posted t left found k)
  publish-Kept (Action.offer _) t left p f k = elim p [ ]
  publish-Kept (Action.accept _) t left p f k = elim p [ ]
  publish-Kept Action.sync t left p f k = elim p [ ]

  refresh_advertisement-Kept :
      (surplus deficit : Bundle) (pressing : Resource → Bool) (t : Turn)
      → Kept model snap limit stock t
      → Kept model snap limit stock (refresh_advertisement snap surplus deficit pressing t)
  unfolding refresh_advertisement
  refresh_advertisement-Kept surplus deficit pressing t k = elim (Bool-cases (t.budget == 0)) [
    | inl spent ↦ rw spent k
    | inr left ↦
        let decided =
          decide_advertisement surplus deficit pressing (own_advertisement snap) snap.tick
            snap.rules in
        elim (Option-cases decided) [
          | inl nothing ↦ rw (left, nothing) k
          | inr (a, found) ↦
              rw (left, found)
                (publish-Kept a t left
                  (decide_advertisement-IsPublication surplus deficit pressing
                    (own_advertisement snap) snap.tick snap.rules a found)
                  (λ b same.
                    (decide_advertisement_lifetime surplus deficit pressing (own_advertisement snap)
                      snap.tick snap.rules b (found ∙ ap some same)).0)
                  k)
        ]
  ]

  advertise_step-Kept :
      (surplus need : Bundle) (pressing : Resource → Bool) (t : Turn)
      → Kept model snap limit stock t
      → Kept model snap limit stock (advertise_step snap surplus need pressing t)
  unfolding advertise_step
  advertise_step-Kept surplus need pressing t k =
      elim (Bool-cases (comfortably_supplied t.available)) [
        | inr poor ↦ rw poor (refresh_advertisement-Kept surplus need pressing t k)
        | inl rich ↦ elim (Option-cases (own_advertisement snap)) [
          | inl nothing ↦ rw (rich, nothing) k
          | inr (posted, found) ↦ elim (Bool-cases (t.budget == 0)) [
            | inl spent ↦ rw (rich, found, spent) k
            | inr left ↦ rw (rich, found, left) (withdraw_posted-Kept posted t left found k)
          ]
        ]
      ]

  pub rearrange-Kept :
      (reserve : Bundle) (ticks_left : Option ℕ) (memory : PolicyMemory) (t : Turn)
      → Unique snap.offers
      → memory.counterparties ≡ model
      → Kept model snap limit stock t
      → Kept model snap limit stock (rearrange snap reserve ticks_left memory t).0
  unfolding rearrange
  rearrange-Kept reserve ticks_left memory t distinct same k =
      let urgency = compute_urgency t.available snap.me.upkeep_per_tick reserve in
      let withdrawn = withdraw_dangerous snap reserve ticks_left (outgoing_open_offers snap) t in
      let excess = excess_over_cap withdrawn.available in
      let given = (give_excess snap excess memory withdrawn).0 in
      let wanted =
        wanted_quantities snap given.available reserve
          (deficit_below_reserve t.available reserve) in
      advertise_step-Kept
        (advertised_surplus wanted excess (surplus_above_reserve given.available reserve)
          (production_payment_limit given.available snap.me ticks_left))
        (advertised_need wanted excess) (is_critical urgency) given
        (give_excess-Kept model snap limit stock memory withdrawn same (
          withdraw_dangerous-Kept model snap limit stock reserve ticks_left
            (outgoing_open_offers snap) t (outgoing_open_offers-IsProposed snap distinct) k))

  pub rearrange-counterparties :
      (reserve : Bundle) (ticks_left : Option ℕ) (memory : PolicyMemory) (t : Turn)
      → (rearrange snap reserve ticks_left memory t).1.counterparties ≡ memory.counterparties
  unfolding rearrange
  rearrange-counterparties reserve ticks_left memory t =
      let withdrawn = withdraw_dangerous snap reserve ticks_left (outgoing_open_offers snap) t in
      give_excess-counterparties model snap limit stock memory (excess_over_cap withdrawn.available)
        withdrawn
