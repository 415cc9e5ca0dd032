-- ===== src/Policy/Memory/Blocking.antt =====
-- A back-off is only ever changed by a throttled request (bazaar_client/policy/memory.py).
use spaceport_bazzar_client.Base.{◌≡◌, refl, ◌∙◌, List, [], ◌∷◌, arith}
use spaceport_bazzar_client.Domain.Types.{Transaction, Snapshot}
use spaceport_bazzar_client.World.Counterparties.History.{update}
use spaceport_bazzar_client.Policy.Memory.{
  PolicyMemory, measure_round_trip, measure_round_trips, measure_production, observe,
}

measure_round_trip-blocked_until_tick :
    (snap : Snapshot) (t : Transaction) (m : PolicyMemory)
    → (measure_round_trip snap t m).blocked_until_tick ≡ m.blocked_until_tick
unfolding measure_round_trip
measure_round_trip-blocked_until_tick snap t m = ground arith

measure_round_trips-blocked_until_tick :
    (snap : Snapshot) (l : List Transaction) (m : PolicyMemory)
    → (measure_round_trips snap l m).blocked_until_tick ≡ m.blocked_until_tick
unfolding measure_round_trips
measure_round_trips-blocked_until_tick snap [] m = refl
measure_round_trips-blocked_until_tick snap (t ∷ l) m =
    measure_round_trips-blocked_until_tick snap l (measure_round_trip snap t m)
    ∙ measure_round_trip-blocked_until_tick snap t m

measure_production-blocked_until_tick :
    (snap : Snapshot) (m : PolicyMemory)
    → (measure_production snap m).blocked_until_tick ≡ m.blocked_until_tick
unfolding measure_production
measure_production-blocked_until_tick snap m = ground arith

pub observe-blocked_until_tick :
    (snap : Snapshot) (m : PolicyMemory)
    → (observe snap m).blocked_until_tick ≡ m.blocked_until_tick
unfolding observe
observe-blocked_until_tick snap m =
    measure_production-blocked_until_tick snap (
      measure_round_trips snap snap.transactions
        (record m { counterparties = update snap m.counterparties }))
    ∙ measure_round_trips-blocked_until_tick snap snap.transactions
        (record m { counterparties = update snap m.counterparties })
