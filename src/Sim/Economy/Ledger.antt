-- ===== src/Sim/Economy/Ledger.antt =====
-- A settlement (`_accept` of bazaar_sim/economy.py) keeps the stock ledger of both parties.
use mathlib.Core.Path.{subst}
use mathlib.Core.Option.{some-injective}
use spaceport_bazzar_client.Base.{
  ◌==◌, nat_eq, Bool-cases, ◌>>=◌, >>=-eq_some, ℕ, ◌+◌, ◌≡◌, inl, inr, some, arith,
}
use spaceport_bazzar_client.Domain.Bundle.{Resource, resource_eq, Bundle, get, saturating_sub}
use spaceport_bazzar_client.Domain.Bundle.Laws.{get-add, get-saturating_sub, dominates→le}
use spaceport_bazzar_client.Domain.Types.{object_eq, Rules, Offer}
use spaceport_bazzar_client.Sim.Station.{SimStation, Feeds, IsHealthy, IsSound}
use spaceport_bazzar_client.Sim.Economy.{exchange, count_trade}
use spaceport_bazzar_client.Sim.Economy.Trade.{exchange-inversion, traded_at}

-- The ledger of a station that has moved `paid` and `got` without having counted them yet.
abbrev Owes : (Resource → ℕ) → (Resource → ℕ) → Rules → Bundle → SimStation → Type 0
Owes paid got rules start s =
    ((r : Resource)
      → get s.inventory r + get s.consumed_total r + get s.exported r + paid r
        ≡ get start r + get s.produced_total r + get s.imported r + got r)
    × Feeds s
    × IsHealthy rules s

-- Health does not depend on the goods.
IsHealthy-moved :
    {rules : Rules} (s : SimStation) {goods exported imported : Bundle}
    → IsHealthy rules s
    → IsHealthy rules (record s { inventory = goods; exported = exported; imported = imported })
IsHealthy-moved s h = record {
  capped = h.capped;
  alive = h.alive;
  dated = h.dated;
  streak = h.streak;
  longest = h.longest;
}

module _ (rules : Rules) (start : Bundle) where
  exchange-Owes :
      (paid got : Resource → ℕ) (a b : Bundle) (s s' : SimStation)
      → Owes paid got rules start s
      → exchange a b s ≡ some s'
      → Owes (λ r. paid r + get a r) (λ r. got r + get b r) rules start s'
  exchange-Owes paid got a b s s' h e =
      let (covered, same) = exchange-inversion a b s s' e in
      rw same (
        (λ r. omega (
          arith,
          h.0 r,
          dominates→le s.inventory a covered r,
          get-add (saturating_sub s.inventory a) b r,
          get-saturating_sub s.inventory a r,
        )),
        h.1,
        IsHealthy-moved s h.2,
      )

  count_trade-Owes :
      (paid got : Resource → ℕ) (a b : Bundle) (s s' : SimStation)
      → Owes (λ r. paid r + get a r) (λ r. got r + get b r) rules start s
      → count_trade a b s ≡ some s'
      → Owes paid got rules start s'
  unfolding count_trade
  count_trade-Owes paid got a b s s' h e =
      subst (λ t. Owes paid got rules start t) (some-injective _ _ e)
        (
          (λ r. omega (arith, h.0 r, get-add s.exported a r, get-add s.imported b r)),
          h.1,
          IsHealthy-moved s h.2,
        )

  -- Two debts in the other order.
  Owes-swap :
      (a b c d : Bundle) (s : SimStation)
      → Owes (λ r. (0 + get a r) + get c r) (λ r. (0 + get b r) + get d r) rules start s
      → Owes (λ r. (0 + get c r) + get a r) (λ r. (0 + get d r) + get b r) rules start s
  Owes-swap a b c d s h = ((λ r. omega (arith, h.0 r)), h.1, h.2)

  sound→Owes : (s : SimStation) → IsSound rules start s → Owes (λ r. 0) (λ r. 0) rules start s
  sound→Owes s h = ((λ r. omega (arith, h.balances r)), h.feeds, h.healthy)

  Owes→sound : (s : SimStation) → Owes (λ r. 0) (λ r. 0) rules start s → IsSound rules start s
  Owes→sound s h = record { balances = λ r. omega (arith, h.0 r); feeds = h.1; healthy = h.2 }

  -- One party of two.
  party-IsSound :
      (a b : Bundle) (s s' : SimStation)
      → IsSound rules start s
      → (exchange a b s >>= count_trade a b) ≡ some s'
      → IsSound rules start s'
  party-IsSound a b s s' h e =
      let (t, first, second) = >>=-eq_some (exchange a b s) (count_trade a b) e in
      Owes→sound s' (
        count_trade-Owes (λ r. 0) (λ r. 0) a b t s'
          (exchange-Owes (λ r. 0) (λ r. 0) a b s t (sound→Owes s h) first) second)

  -- A station that trades with itself.
  self-IsSound :
      (a b : Bundle) (s s' : SimStation)
      → IsSound rules start s
      → (exchange a b s >>= exchange b a >>= count_trade a b >>= count_trade b a) ≡ some s'
      → IsSound rules start s'
  self-IsSound a b s s' h e =
      let (t₃, e₃, fourth) =
        >>=-eq_some (exchange a b s >>= exchange b a >>= count_trade a b) (count_trade b a) e in
      let (t₂, e₂, third) = >>=-eq_some (exchange a b s >>= exchange b a) (count_trade a b) e₃ in
      let (t₁, first, second) = >>=-eq_some (exchange a b s) (exchange b a) e₂ in
      let owed =
        exchange-Owes (λ r. 0 + get a r) (λ r. 0 + get b r) b a t₁ t₂
          (exchange-Owes (λ r. 0) (λ r. 0) a b s t₁ (sound→Owes s h) first) second in
      Owes→sound s' (
        count_trade-Owes (λ r. 0) (λ r. 0) b a t₃ s'
          (count_trade-Owes (λ r. 0 + get b r) (λ r. 0 + get a r) a b t₂ t₃
            (Owes-swap a b b a t₂ owed) third)
          fourth)

  pub traded_at-IsSound :
      (o : Offer) (x : ℕ) (s s' : SimStation)
      → IsSound rules start s
      → traded_at o x (some s) ≡ some s'
      → IsSound rules start s'
  traded_at-IsSound o x s s' h e = elim (Bool-cases (x == o.proposer_id)) [
    | inl p ↦ elim (Bool-cases (x == o.recipient_id)) [
      | inl r ↦ self-IsSound o.give o.receive s s' h (rw (p, r) at e)
      | inr r ↦ party-IsSound o.give o.receive s s' h (rw (p, r) at e)
    ]
    | inr p ↦ elim (Bool-cases (x == o.recipient_id)) [
      | inl r ↦ party-IsSound o.receive o.give s s' h (rw (p, r) at e)
      | inr r ↦ subst (IsSound rules start) (some-injective _ _ (rw (p, r) at e)) h
    ]
  ]
