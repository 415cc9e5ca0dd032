-- ===== src/Policy/Decide/Giving.antt =====
-- The gifts of a decision are in order (bazaar_client/policy/decide.py).
use mathlib.Core.Path.{subst}
use spaceport_bazzar_client.Base.{
  leb, ◌==◌, nat_eq, Bool-cases, Option-cases, length, All, All-both, ℕ, ◌+◌, ◌-◌, ◌≤◌, ◌<◌, min,
  ◌≡◌, refl, ◌∙◌, inl, inr, false, ◌||◌, Option, List, [], ◌∷◌, arith,
}
use spaceport_bazzar_client.Domain.Bundle.{
  Resource, resource_eq, Bundle, get, single, add, saturating_sub,
}
use spaceport_bazzar_client.Domain.Bundle.Laws.{get-bundle_of, get-saturating_sub, get-single}
use spaceport_bazzar_client.Domain.Types.{object_eq, Snapshot, outgoing_open_offers}
use spaceport_bazzar_client.World.Counterparties.{CounterpartyStats, CounterpartyModel}
use spaceport_bazzar_client.Policy.Memory.{PolicyMemory, record_gift}
use spaceport_bazzar_client.Policy.Reserves.{
  stock_cap, Urgency, production_payment_limit, excess_over_cap,
}
use spaceport_bazzar_client.World.Counterparties.InPlay.{IsInPlay}
use spaceport_bazzar_client.Policy.Altruism.Receiver.{pick_gift_recipient-IsInPlay}
use spaceport_bazzar_client.Policy.Altruism.{pick_gift_recipient, scan_for_distress}
use spaceport_bazzar_client.Policy.Pricing.Terms.{is_zero-single}
use spaceport_bazzar_client.Policy.Altruism.Caution.{scan_for_distress-IsCareful}
use spaceport_bazzar_client.Policy.Decide.Turn.{Turn, act, spend, ttl_of, planned_offers}
use spaceport_bazzar_client.Policy.Decide.Incoming.{is_limited}
use spaceport_bazzar_client.Policy.Decide.Gifts.{
  max_excess_gift, gift_to, Giving, give, give_one, give_each, by_excess, give_excess, offer_aid,
}
use spaceport_bazzar_client.Policy.Decide.Kept.{Kept, IsOrderly, Kept-IsOrderly, spend-Kept}
use spaceport_bazzar_client.Policy.Decide.Offering.{lifetime_ok-ttl_of}

-- No resource stands twice.
abbrev Distinct : List Resource → Type 0
Distinct [] = Unit
Distinct (r ∷ rs) = All (λ s. (s == r) ≡ false) rs × Distinct rs

by_excess-Distinct : (excess : Bundle) → Distinct (by_excess excess)
by_excess-Distinct excess = ground arith

get-single-le :
    (s : Resource) (n : ℕ) (b : Bundle) (r : Resource) → n ≤ get b s → get (single s n) r ≤ get b r
get-single-le s n b r h = ground (arith, get-single s n r)

module _ (model : CounterpartyModel) (snap : Snapshot) (limit : ℕ) (stock : Bundle)
    (excess : Bundle) where
  -- The excess of the resources to come is still in stock.
  abbrev GivingKept : List Resource → Giving → Type 0
  GivingKept rs g =
      Kept model snap limit stock g.turn × All (λ r. get excess r ≤ get g.turn.available r) rs

  give-Kept :
      (r : Resource) (quantity sid : ℕ) (rs : List Resource) (g : Giving)
      → (g.turn.budget == 0) ≡ false
      → (ttl_of snap == 0) ≡ false
      → IsInPlay model sid
      → 0 < quantity
      → quantity ≤ get g.turn.available r
      → All (λ s. (s == r) ≡ false) rs
      → GivingKept rs g
      → GivingKept rs (give snap r quantity sid g)
  give-Kept r quantity sid rs g left lives partner some_given held others (k, rest) = (
    spend-Kept model snap limit stock (gift_to snap sid (single r quantity)) (single r quantity)
        g.turn left (λ s. omega arith) (λ s. get-single-le r quantity g.turn.available s held)
        (partner, is_zero-single r quantity some_given, lifetime_ok-ttl_of snap lives) k,
    All-both (λ s. (s == r) ≡ false) (λ s. get excess s ≤ get g.turn.available s)
        (λ s. get excess s ≤ get (saturating_sub g.turn.available (single r quantity)) s) rs
        (λ s other h. ground (
          arith,
          get-saturating_sub g.turn.available (single r quantity) s,
          get-single r quantity s,
        ))
        others rest,
  )

  give_one-Kept :
      (r : Resource) (rs : List Resource) (g : Giving)
      → All (λ s. (s == r) ≡ false) rs
      → g.memory.counterparties ≡ model
      → GivingKept (r ∷ rs) g
      → GivingKept rs (give_one snap excess r g)
  unfolding give_one
  give_one-Kept r rs g others same (k, (held, rest)) =
      let stop = g.turn.budget == 0 || g.room == 0 || ttl_of snap == 0 || get excess r == 0 in
      elim (Bool-cases stop) [
        | inl stops ↦ rw stops (k, rest)
        | inr goes ↦
            let picked = pick_gift_recipient g.memory.counterparties r snap.tick g.memory in
            elim (Option-cases picked) [
              | inl nothing ↦ rw (goes, nothing) (k, rest)
              | inr (sid, found) ↦
                  rw (goes, found)
                    (give-Kept r (min (get excess r) max_excess_gift) sid rs g (ground arith)
                      (ground arith)
                      (subst (λ m. IsInPlay m sid) same
                        (pick_gift_recipient-IsInPlay g.memory.counterparties r snap.tick g.memory
                          sid found))
                      (ground arith) (ground arith) others (k, rest))
            ]
      ]

  give_one-counterparties :
      (r : Resource) (g : Giving)
      → (give_one snap excess r g).memory.counterparties ≡ g.memory.counterparties
  unfolding give_one record_gift
  give_one-counterparties r g = ground arith

  pub give_each-counterparties :
      (rs : List Resource) (g : Giving)
      → (give_each snap excess rs g).memory.counterparties ≡ g.memory.counterparties
  unfolding give_each
  give_each-counterparties [] g = refl
  give_each-counterparties (r ∷ rs) g =
      give_each-counterparties rs (give_one snap excess r g) ∙ give_one-counterparties r g

  give_each-Kept :
      (rs : List Resource) (g : Giving)
      → Distinct rs
      → g.memory.counterparties ≡ model
      → GivingKept rs g
      → Kept model snap limit stock (give_each snap excess rs g).turn
  unfolding give_each
  give_each-Kept [] g distinct same k = k.0
  give_each-Kept (r ∷ rs) g distinct same k =
      give_each-Kept rs (give_one snap excess r g) distinct.1 (give_one-counterparties r g ∙ same)
        (give_one-Kept r rs g distinct.0 same k)

All-any : (P : Resource → Type 0) (l : List Resource) → ((r : Resource) → P r) → All P l
All-any P [] f = tt
All-any P (r ∷ l) f = (f r, All-any P l f)

module _ (model : CounterpartyModel) (snap : Snapshot) (limit : ℕ) (stock : Bundle) where
  -- Gifts of what is over the cap keep the balance.
  pub give_excess-Kept :
      (memory : PolicyMemory) (t : Turn)
      → memory.counterparties ≡ model
      → Kept model snap limit stock t
      → Kept model snap limit stock (give_excess snap (excess_over_cap t.available) memory t).0
  unfolding give_excess excess_over_cap
  give_excess-Kept memory t same k =
      let excess = excess_over_cap t.available in
      give_each-Kept model snap limit stock excess (by_excess excess)
        (record {
          turn = t;
          memory = memory;
          room =
              snap.rules.max_open_outgoing_offers
              - length (outgoing_open_offers snap)
              - planned_offers t.actions;
        })
        (by_excess-Distinct excess) same
        (
          k,
          All-any (λ r. get excess r ≤ get t.available r) (by_excess excess)
              (λ r. omega (arith, get-bundle_of (λ s. get t.available s - stock_cap) r)),
        )

  -- Gifts leave what is known of the other planets as it is.
  pub give_excess-counterparties :
      (memory : PolicyMemory) (excess : Bundle) (t : Turn)
      → (give_excess snap excess memory t).1.counterparties ≡ memory.counterparties
  unfolding give_excess
  give_excess-counterparties memory excess t =
      give_each-counterparties model snap limit stock excess (by_excess excess) _

  -- Aid keeps the balance as well.
  pub offer_aid-Kept :
      (keys : CounterpartyStats → List Resource) (reserve surplus : Bundle)
      (urgency : Resource → Urgency) (ticks_left : Option ℕ) (memory : PolicyMemory) (t : Turn)
      → memory.counterparties ≡ model
      → ((r : Resource) → get surplus r ≤ get t.available r)
      → Kept model snap limit stock t
      → IsOrderly model snap limit stock
          (offer_aid keys snap reserve surplus urgency ticks_left memory t).0.actions
  unfolding offer_aid
  offer_aid-Kept keys reserve surplus urgency ticks_left memory t same below k =
      let start_stock = add surplus reserve in
      let stop =
        is_limited (production_payment_limit start_stock snap.me ticks_left)
        || t.budget == 0
        || leb snap.rules.max_open_outgoing_offers
            (length (outgoing_open_offers snap) + planned_offers t.actions) in
      elim (Bool-cases stop) [
        | inl stops ↦ rw stops (Kept-IsOrderly model snap limit stock t k)
        | inr goes ↦
            elim (Option-cases
              (scan_for_distress keys memory.counterparties surplus urgency snap.tick memory)) [
                | inl nothing ↦ rw (goes, nothing) (Kept-IsOrderly model snap limit stock t k)
                | inr (g, found) ↦
                    let gift = single g.resource g.quantity in
                    let late =
                      is_limited (
                        production_payment_limit (saturating_sub start_stock gift) snap.me
                          ticks_left)
                      || ttl_of snap == 0 in
                    elim (Bool-cases late) [
                      | inl stops ↦
                          rw (goes, found, stops) (Kept-IsOrderly model snap limit stock t k)
                      | inr lives ↦
                          let careful =
                            (scan_for_distress-IsCareful keys memory.counterparties surplus urgency
                              snap.tick memory g found).1 in
                          rw (goes, found, lives)
                            (Kept-IsOrderly model snap limit stock
                              (spend gift (act (gift_to snap g.station_id gift) t))
                              (spend-Kept model snap limit stock (gift_to snap g.station_id gift)
                                gift t (ground arith) (λ r. omega arith)
                                (λ r. omega (
                                  arith,
                                  below r,
                                  get-single-le g.resource g.quantity surplus r careful.held,
                                ))
                                (
                                  subst (λ m. IsInPlay m g.station_id) same careful.known,
                                  is_zero-single g.resource g.quantity careful.useful,
                                  lifetime_ok-ttl_of snap (ground arith),
                                )
                                k))
                    ]
              ]
      ]
