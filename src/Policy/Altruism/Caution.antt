-- ===== src/Policy/Altruism/Caution.antt =====
-- A gift never becomes a shortage (bazaar_client/policy/altruism.py).
use mathlib.Core.Option.{some-injective}
use mathlib.Core.Path.{subst}
use spaceport_bazzar_client.Base.{
  ltb, ◌==◌, nat_eq, Bool-cases, All, All-append, ℕ, ◌/◌, ◌≤◌, ◌<◌, max, ◌≡◌, inl, inr, true,
  Option, none, some, List, [], ◌∷◌, arith,
}
use spaceport_bazzar_client.Domain.Bundle.{Resource, resource_eq, Bundle, get, all_resources}
use spaceport_bazzar_client.Domain.Types.{object_eq}
use spaceport_bazzar_client.World.Counterparties.{
  CounterpartyStats, CounterpartyModel, stations_in_play,
}
use spaceport_bazzar_client.World.Counterparties.InPlay.{IsInPlay, stations_in_play-IsInPlay}
use spaceport_bazzar_client.Policy.Memory.{PolicyMemory}
use spaceport_bazzar_client.Policy.Reserves.{Urgency, level}
use spaceport_bazzar_client.Policy.Altruism.{
  cooldown_ticks, GiftIntent, is_rested, is_in_distress, intents_for, intents_of, streak_of,
  longest_need, scan_for_distress,
}

-- The receiver is in play. The gift is at least one unit, at most a fifth of the surplus or one
-- unit, held in surplus, and its receiver had no gift of the resource for five ticks.
pub record IsCareful (model : CounterpartyModel) (surplus : Bundle) (tick : ℕ)
    (memory : PolicyMemory) (g : GiftIntent) : Type 0 where
  pub known : IsInPlay model g.station_id
  pub useful : 0 < g.quantity
  pub held : g.quantity ≤ get surplus g.resource
  pub small : g.quantity ≤ max 1 (get surplus g.resource / 5)
  pub rested : is_rested cooldown_ticks g.station_id g.resource tick memory ≡ true

module _ (model : CounterpartyModel) (surplus : Bundle) (tick : ℕ) (memory : PolicyMemory) where
  intents_for-IsCareful :
      (s : CounterpartyStats) (rs : List Resource)
      → IsInPlay model s.station_id
      → All (IsCareful model surplus tick memory) (intents_for surplus tick memory s rs)
  unfolding intents_for
  intents_for-IsCareful s [] p = tt
  intents_for-IsCareful s (r ∷ rs) p = elim (Bool-cases (is_in_distress surplus tick memory s r)) [
    | inl needy ↦ rw needy (
      record {
        known = p;
        useful = omega arith;
        held = ground arith;
        small = omega arith;
        rested = ground arith;
      },
      intents_for-IsCareful s rs p,
    )
    | inr fine ↦ rw fine (intents_for-IsCareful s rs p)
  ]

  intents_of-IsCareful :
      (keys : CounterpartyStats → List Resource) (l : List CounterpartyStats)
      → All (λ s. IsInPlay model s.station_id) l
      → All (IsCareful model surplus tick memory) (intents_of keys surplus tick memory l)
  unfolding intents_of
  intents_of-IsCareful keys [] p = tt
  intents_of-IsCareful keys (s ∷ l) p =
      All-append (IsCareful model surplus tick memory) (intents_for surplus tick memory s (keys s))
        (intents_of keys surplus tick memory l) (intents_for-IsCareful s (keys s) p.0)
        (intents_of-IsCareful keys l p.1)

  longest_need-IsCareful :
      (best : GiftIntent) (l : List GiftIntent)
      → IsCareful model surplus tick memory best
      → All (IsCareful model surplus tick memory) l
      → IsCareful model surplus tick memory (longest_need model best l)
  unfolding longest_need
  longest_need-IsCareful best [] h k = h
  longest_need-IsCareful best (g ∷ l) h k =
      elim (Bool-cases (ltb (streak_of model best) (streak_of model g))) [
        | inl longer ↦ rw longer (longest_need-IsCareful g l k.0 k.1)
        | inr shorter ↦ rw shorter (longest_need-IsCareful best l h k.1)
      ]

  choose-IsCareful :
      (intents : List GiftIntent) (g : GiftIntent)
      → All (IsCareful model surplus tick memory) intents
      → (elim intents [ [] ↦ none | i ∷ l ↦ some (longest_need model i l) ]) ≡ some g
      → IsCareful model surplus tick memory g
  choose-IsCareful [] g h e = absurd (cc)
  choose-IsCareful (i ∷ l) g h e =
      subst (IsCareful model surplus tick memory) (some-injective _ _ e)
        (longest_need-IsCareful i l h.0 h.1)

-- A gift is proposed only while none of our own resources is urgent, and to a planet that the model
-- knows and has not seen fail. It is at least one unit, in
-- surplus, and no more than a fifth of the surplus or one unit, and its receiver had no gift of the
-- resource within the cooldown.
pub scan_for_distress-IsCareful :
    (keys : CounterpartyStats → List Resource) (model : CounterpartyModel) (surplus : Bundle)
    (urgency : Resource → Urgency) (tick : ℕ) (memory : PolicyMemory) (g : GiftIntent)
    → scan_for_distress keys model surplus urgency tick memory ≡ some g
    → (all_resources (λ r. level (urgency r) == 0) ≡ true) × IsCareful model surplus tick memory g
unfolding scan_for_distress
scan_for_distress-IsCareful keys model surplus urgency tick memory g e =
    elim (Bool-cases (all_resources (λ r. level (urgency r) == 0))) [
      | inl calm_all ↦ (
        calm_all,
        choose-IsCareful model surplus tick memory
            (intents_of keys surplus tick memory (stations_in_play model)) g
            (intents_of-IsCareful model surplus tick memory keys (stations_in_play model)
              (stations_in_play-IsInPlay model))
            (rw calm_all at e),
      )
      | inr urgent ↦
          let nothing : ◌≡◌ {A = Option GiftIntent} none (some g) = rw urgent at e in absurd (cc)
    ]
