-- ===== src/Policy/Decide/Turn.antt =====
-- The balance that the steps of a decision share (bazaar_client/policy/decide.py), and what several
-- of them ask of the observation.
use spaceport_bazzar_client.Base.{
  ltb, length, keep_if, any, ℕ, ◌-◌, ◌*◌, min, Bool, true, false, ◌||◌, List, [], ◌∷◌, ◌++◌,
}
use spaceport_bazzar_client.Domain.Bundle.{Bundle, saturating_sub, is_zero, total}
use spaceport_bazzar_client.Domain.Types.{Snapshot, outgoing_open_offers}
use spaceport_bazzar_client.Execution.Actions.{Action}

pub record Turn : Type 0 where
  pub actions : List Action
  pub budget : ℕ
  pub available : Bundle

-- `decision.add(action, ...)` and `budget -= 1`
abbrev pub act : Action → Turn → Turn
act action t = record t { actions = t.actions ++ action ∷ []; budget = t.budget - 1 }

-- `available = available.saturating_sub(cost)`
abbrev pub spend : Bundle → Turn → Turn
spend cost t = record t { available = saturating_sub t.available cost }

abbrev pub offer_ttl : ℕ
offer_ttl = 5

-- `ttl`; it is at most 0 in the code just when it is 0 here
abbrev pub ttl_of : Snapshot → ℕ
ttl_of snap =
    min offer_ttl (min snap.rules.max_offer_ttl_ticks (snap.rules.duration_ticks - snap.tick))

abbrev pub is_offer : Action → Bool
is_offer (Action.offer a) = true
is_offer _ = false

-- `sum(isinstance(a, OfferAction) for a in decision.actions)`
abbrev pub planned_offers : List Action → ℕ
planned_offers actions = length (keep_if is_offer actions)

-- `_has_normal_offers`
unfoldable pub has_normal_offers : Snapshot → Bool
has_normal_offers snap =
    any (λ o. is_zero o.receive || ltb (total o.receive) (2 * total o.give))
      (outgoing_open_offers snap)
