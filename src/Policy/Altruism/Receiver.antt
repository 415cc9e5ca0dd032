-- ===== src/Policy/Altruism/Receiver.antt =====
-- Who gets a gift of what is over the cap (bazaar_client/policy/altruism.py).
use mathlib.Core.Option.{some-injective}
use mathlib.Core.Path.{subst}
use spaceport_bazzar_client.Base.{
  Bool-cases, keep_if, All, All-keep_if, ℕ, ◌≡◌, inl, inr, ◌&&◌, none, some, List, [], ◌∷◌,
}
use spaceport_bazzar_client.Domain.Bundle.{Resource}
use spaceport_bazzar_client.World.Counterparties.{
  CounterpartyStats, CounterpartyModel, stations_in_play,
}
use spaceport_bazzar_client.World.Counterparties.InPlay.{IsInPlay, stations_in_play-IsInPlay}
use spaceport_bazzar_client.Policy.Memory.{PolicyMemory}
use spaceport_bazzar_client.Policy.Altruism.{
  excess_cooldown_ticks, is_rested, is_quieter, loudest, pick_gift_recipient,
}

module _ (model : CounterpartyModel) (r : Resource) where
  loudest-IsInPlay :
      (best : CounterpartyStats) (l : List CounterpartyStats)
      → IsInPlay model best.station_id
      → All (λ s. IsInPlay model s.station_id) l
      → IsInPlay model (loudest r best l).station_id
  unfolding loudest
  loudest-IsInPlay best [] h k = h
  loudest-IsInPlay best (s ∷ l) h k = elim (Bool-cases (is_quieter r best s)) [
    | inl quieter ↦ rw (loudest, quieter) (loudest-IsInPlay s l k.0 k.1)
    | inr louder ↦ rw (loudest, louder) (loudest-IsInPlay best l h k.1)
  ]

  chosen-IsInPlay :
      (seekers : List CounterpartyStats) (sid : ℕ)
      → All (λ s. IsInPlay model s.station_id) seekers
      → (elim seekers [ [] ↦ none | s ∷ l ↦ some (loudest r s l).station_id ]) ≡ some sid
      → IsInPlay model sid
  chosen-IsInPlay [] sid h e = absurd (cc)
  chosen-IsInPlay (s ∷ l) sid h e =
      subst (IsInPlay model) (some-injective _ _ e) (loudest-IsInPlay s l h.0 h.1)

  pub pick_gift_recipient-IsInPlay :
      (tick : ℕ) (memory : PolicyMemory) (sid : ℕ)
      → pick_gift_recipient model r tick memory ≡ some sid
      → IsInPlay model sid
  unfolding pick_gift_recipient
  pick_gift_recipient-IsInPlay tick memory sid e =
      let seeks_gift = λ (s : CounterpartyStats).
        s.seeking r && is_rested excess_cooldown_ticks s.station_id r tick memory in
      chosen-IsInPlay (keep_if seeks_gift (stations_in_play model)) sid
        (All-keep_if seeks_gift (λ s. IsInPlay model s.station_id) (stations_in_play model)
          (stations_in_play-IsInPlay model))
        e
