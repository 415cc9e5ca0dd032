-- ===== src/World/Counterparties/Observed.antt =====
-- The estimates of bazaar_client/world/counterparties.py after any snapshots.
use spaceport_bazzar_client.Base.{
  ◌==◌, nat_eq, Bool-cases, any, All, All-map, ℕ, inl, inr, not, ◌||◌, List, [], ◌∷◌, map,
}
use spaceport_bazzar_client.Domain.Bundle.{resource_eq, Bundle}
use spaceport_bazzar_client.Domain.Types.{object_eq, Offer, Transaction, Snapshot}
use spaceport_bazzar_client.World.Counterparties.{
  CounterpartyStats, CounterpartyModel, change_or_add, update_directory, active_ads, hear_each,
  silence, update_advertisements,
}
use spaceport_bazzar_client.World.Counterparties.History.{
  is_recipient_decided, decided, awake, learn_offer, update_offer_history, handed_over,
  update_supply, update,
}
use spaceport_bazzar_client.World.Counterparties.Plausible.{
  IsPlausible, Keeps, change_or_add-IsPlausible, update_directory-IsPlausible,
  hear_each-IsPlausible, silence-IsPlausible, decided-IsPlausible,
}

awake-IsPlausible : Keeps awake
awake-IsPlausible s k = record { rated = k.rated; limited = k.limited; sought = k.sought }

handed_over-IsPlausible : (received : Bundle) → Keeps (handed_over received)
handed_over-IsPlausible received s k = record {
  rated = k.rated;
  limited = k.limited;
  sought = k.sought;
}

learn_offer-IsPlausible :
    (me : ℕ) (o : Offer) (m : CounterpartyModel)
    → All IsPlausible m.known
    → All IsPlausible (learn_offer me o m).known
unfolding learn_offer
learn_offer-IsPlausible me o m h = elim (Bool-cases (o.recipient_id == me)) [
  | inl to_us ↦ rw to_us (change_or_add-IsPlausible o.proposer_id awake m.known awake-IsPlausible h)
  | inr other ↦ elim (Bool-cases (o.proposer_id == me)) [
    | inr foreign_offer ↦ rw (other, foreign_offer) h
    | inl ours ↦
        elim (Bool-cases
          (not (is_recipient_decided o.status) || any (λ i. i == o.offer_id) m.counted_offers)) [
            | inl known_or_open ↦ rw (other, ours, known_or_open) h
            | inr news ↦
                rw (other, ours, news)
                  (change_or_add-IsPlausible o.recipient_id (decided o) m.known
                    (decided-IsPlausible o) h)
          ]
  ]
]

update_offer_history-IsPlausible :
    (me : ℕ) (offers : List Offer) (m : CounterpartyModel)
    → All IsPlausible m.known
    → All IsPlausible (update_offer_history me offers m).known
unfolding update_offer_history
update_offer_history-IsPlausible me [] m h = h
update_offer_history-IsPlausible me (o ∷ offers) m h =
    update_offer_history-IsPlausible me offers (learn_offer me o m)
      (learn_offer-IsPlausible me o m h)

update_supply-IsPlausible :
    (me : ℕ) (transactions : List Transaction) (l : List CounterpartyStats)
    → All IsPlausible l
    → All IsPlausible (update_supply me transactions l)
unfolding update_supply
update_supply-IsPlausible me [] l h = h
update_supply-IsPlausible me (t ∷ transactions) l h = elim (Bool-cases (me == t.recipient_id)) [
  | inl bought ↦ rw bought (
      update_supply-IsPlausible me transactions (change_or_add t.proposer_id (handed_over t.give) l)
        (change_or_add-IsPlausible t.proposer_id (handed_over t.give) l
          (handed_over-IsPlausible t.give) h))
  | inr other ↦ elim (Bool-cases (me == t.proposer_id)) [
    | inl sold ↦
        rw (other, sold)
          (update_supply-IsPlausible me transactions
            (change_or_add t.recipient_id (handed_over t.receive) l)
            (change_or_add-IsPlausible t.recipient_id (handed_over t.receive) l
              (handed_over-IsPlausible t.receive) h))
    | inr neither ↦ rw (other, neither) (update_supply-IsPlausible me transactions l h)
  ]
]

update-IsPlausible :
    (snap : Snapshot) (m : CounterpartyModel)
    → All IsPlausible m.known
    → All IsPlausible (update snap m).known
unfolding update update_advertisements
update-IsPlausible snap m h =
    let me = snap.self_station_id in
    let active = active_ads me snap.tick snap.advertisements [] in
    let named = update_directory me snap.directory m.known in
    let heard = map (silence active) (hear_each snap.tick active named) in
    let fair =
      All-map IsPlausible IsPlausible (silence active) (hear_each snap.tick active named)
        (silence-IsPlausible active)
        (hear_each-IsPlausible snap.tick active named
          (update_directory-IsPlausible me snap.directory m.known h)) in
    update_supply-IsPlausible me snap.transactions
      (update_offer_history me snap.offers (record m { known = heard })).known
      (update_offer_history-IsPlausible me snap.offers (record m { known = heard }) fair)

-- `update` on every snapshot in turn.
unfoldable pub observe_each : List Snapshot → CounterpartyModel → CounterpartyModel
observe_each [] m = m
observe_each (snap ∷ snaps) m = observe_each snaps (update snap m)

-- Whatever snapshots the client sees, from a model whose estimates are consistent: for every planet
-- the acceptances and the lapses since the last one are at most the offers sent, a size limit is at
-- least 1, and only a resource that it seeks has a streak.
pub observe_each-IsPlausible :
    (snaps : List Snapshot) (m : CounterpartyModel)
    → All IsPlausible m.known
    → All IsPlausible (observe_each snaps m).known
unfolding observe_each
observe_each-IsPlausible [] m h = h
observe_each-IsPlausible (snap ∷ snaps) m h =
    observe_each-IsPlausible snaps (update snap m) (update-IsPlausible snap m h)
