-- ===== src/Sim/Economy/Conservation.antt =====
-- Goods move between stations and are neither made nor lost (`execute` of bazaar_sim/economy.py).
use spaceport_bazzar_client.Base.{ℕ, ◌≡◌, ◌⊎◌, inl, inr, false, some}
use spaceport_bazzar_client.Domain.Bundle.{Resource}
use spaceport_bazzar_client.Execution.Actions.{Action}
use spaceport_bazzar_client.Sim.Economy.{
  CommandOutcome, is_ok, Economy, post_advertisement, posted, post_offer, counted, execute,
}
use spaceport_bazzar_client.Sim.Economy.Trade.{stock, stock-settlement}
use spaceport_bazzar_client.Sim.Economy.Effect.{Effect}
use spaceport_bazzar_client.Sim.Economy.Effect.Commands.{execute-Effect}

Effect-stock :
    (sid : ℕ) (action : Action) (e : Economy) (out : CommandOutcome) (e' : Economy) (r : Resource)
    → Effect sid action e out e'
    → stock r e'.stations ≡ stock r e.stations
unfolding counted post_advertisement post_offer
Effect-stock sid action e out e' r (Effect.unprocessed _ same) = rw same
Effect-stock sid action e out e' r (Effect.failed _ _ same) = rw same
Effect-stock sid action e out e' r (Effect.advertised _ a _ _ _ same) = rw same
Effect-stock sid action e out e' r (Effect.posted_offer _ a _ _ _ same) = rw same
Effect-stock sid action e out e' r (Effect.took_down _ posted _ _ _ _ same) = rw same
Effect-stock sid action e out e' r (Effect.withdrew _ o _ _ _ _ _ _ same) = rw same
Effect-stock sid action e out e' r (Effect.accepted _ o _ _ l writes _ same) =
    rw same (stock-settlement o r e.stations writes)

-- No command changes how much of a resource the world holds.
pub execute_conserves :
    (sid : ℕ) (action : Action) (e : Economy) (out : CommandOutcome) (e' : Economy) (r : Resource)
    → execute sid action e ≡ some (out, e')
    → stock r e'.stations ≡ stock r e.stations
execute_conserves sid action e out e' r h =
    Effect-stock sid action e out e' r (execute-Effect sid action e out e' h)

-- A command that is not answered `OK` leaves everything but the caller's command count as it was.
pub execute_atomic :
    (sid : ℕ) (action : Action) (e : Economy) (out : CommandOutcome) (e' : Economy)
    → execute sid action e ≡ some (out, e')
    → is_ok out.code ≡ false
    → (e' ≡ e) ⊎ (e' ≡ counted sid e)
execute_atomic sid action e out e' h bad = go (execute-Effect sid action e out e' h)
  where
    go : Effect sid action e out e' → (e' ≡ e) ⊎ (e' ≡ counted sid e)
    go (Effect.unprocessed _ same) = inl same
    go (Effect.failed _ _ same) = inr same
    go (Effect.advertised _ a _ _ good same) = absurd (cc)
    go (Effect.posted_offer _ a _ _ good same) = absurd (cc)
    go (Effect.took_down _ posted _ _ _ good same) = absurd (cc)
    go (Effect.withdrew _ o _ _ _ _ _ good same) = absurd (cc)
    go (Effect.accepted _ o _ _ l writes good same) = absurd (cc)
