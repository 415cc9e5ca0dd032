-- ===== src/World/Commitments.antt =====
-- `CommitmentTracker` of bazaar_client/world/commitments.py. The dictionary of offers in flight is
-- the list of its items in insertion order.
pub mod Cover
use spaceport_bazzar_client.Base.{if◌then◌else◌, ◌==◌, nat_eq, length, ℕ, Bool, not, List, [], ◌∷◌}
use spaceport_bazzar_client.Domain.Bundle.{
  resource_eq, Bundle, zero_bundle, add, dominates, saturating_sub,
}
use spaceport_bazzar_client.Domain.Types.{object_eq, is_open, Offer, is_expired_at, Snapshot}

abbrev pub CommitmentTracker : Type 0
CommitmentTracker = List (ℕ × Bundle)

abbrev pub new_tracker : CommitmentTracker
new_tracker = []

-- `self._inflight[request_id] = give`
unfoldable pub register_inflight : ℕ → Bundle → CommitmentTracker → CommitmentTracker
register_inflight id give [] = (id, give) ∷ []
register_inflight id give ((i, old) ∷ items) =
    if i == id then (id, give) ∷ items else (i, old) ∷ register_inflight id give items

-- `self._inflight.pop(request_id, None)`; a dictionary holds an id at most once
unfoldable pub resolve_inflight : ℕ → CommitmentTracker → CommitmentTracker
resolve_inflight id [] = []
resolve_inflight id ((i, old) ∷ items) =
    if i == id then items else (i, old) ∷ resolve_inflight id items

abbrev pub clear_inflight : CommitmentTracker → CommitmentTracker
clear_inflight t = []

abbrev pub inflight_count : CommitmentTracker → ℕ
inflight_count = length

-- The loop of `inflight_total`, from the total so far.
unfoldable pub total_from : Bundle → CommitmentTracker → Bundle
total_from sum [] = sum
total_from sum ((i, give) ∷ items) = total_from (add sum give) items

unfoldable pub inflight_total : CommitmentTracker → Bundle
unfolding total_from
inflight_total t = total_from zero_bundle t

-- The loop of `outstanding_confirmed_give`, from the total so far.
unfoldable pub give_from : Snapshot → Bundle → List Offer → Bundle
give_from snap sum [] = sum
give_from snap sum (o ∷ offers) =
    if not (o.proposer_id == snap.self_station_id)
    then give_from snap sum offers
    else if not (is_open o.status)
    then give_from snap sum offers
    else if is_expired_at o snap.tick
    then give_from snap sum offers
    else give_from snap (add sum o.give) offers

unfoldable pub outstanding_confirmed_give : Snapshot → Bundle
unfolding give_from
outstanding_confirmed_give snap = give_from snap zero_bundle snap.offers

unfoldable pub available_to_commit : Snapshot → CommitmentTracker → Bundle
unfolding outstanding_confirmed_give inflight_total
available_to_commit snap t =
    saturating_sub (saturating_sub snap.me.inventory (outstanding_confirmed_give snap))
      (inflight_total t)

unfoldable pub can_afford : Snapshot → Bundle → CommitmentTracker → Bool
unfolding available_to_commit
can_afford snap cost t = dominates (available_to_commit snap t) cost
