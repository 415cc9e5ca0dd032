-- ===== src/World/Commitments/Cover.antt =====
-- The client never promises more than it holds (bazaar_client/world/commitments.py).
use spaceport_bazzar_client.Base.{
  if◌then◌else◌, ◌==◌, nat_eq, Bool-cases, keep_if, sum_by, ℕ, ◌+◌, ◌-◌, ◌≤◌, ◌≡◌, inl, inr, true,
  ◌&&◌, List, [], ◌∷◌, arith,
}
use spaceport_bazzar_client.Domain.Bundle.{
  Resource, resource_eq, Bundle, get, zero_bundle, add, saturating_sub,
}
use spaceport_bazzar_client.Domain.Bundle.Laws.{
  get-add, get-saturating_sub, dominates→le, get-zero_bundle,
}
use spaceport_bazzar_client.Domain.Types.{
  object_eq, Offer, is_open_at, Snapshot, outgoing_open_offers,
}
use spaceport_bazzar_client.World.Commitments.{
  CommitmentTracker, register_inflight, resolve_inflight, clear_inflight, total_from,
  inflight_total, give_from, outstanding_confirmed_give, available_to_commit, can_afford,
}

-- What the open offers and the offers in flight promise together is in stock.
abbrev pub IsCovered : Snapshot → CommitmentTracker → Type 0
IsCovered snap t =
    (r : Resource)
    → get (outstanding_confirmed_give snap) r + get (inflight_total t) r ≤ get snap.me.inventory r

abbrev promised : Resource → CommitmentTracker → ℕ
promised r = sum_by (λ item. get item.1 r)

total_from-sum :
    (r : Resource) (sum : Bundle) (t : CommitmentTracker)
    → get (total_from sum t) r ≡ get sum r + promised r t
unfolding total_from
total_from-sum r sum [] = omega arith
total_from-sum r sum ((i, give) ∷ items) =
    omega (arith, total_from-sum r (add sum give) items, get-add sum give r)

get-inflight_total :
    (r : Resource) (t : CommitmentTracker) → get (inflight_total t) r ≡ promised r t
unfolding inflight_total
get-inflight_total r t = omega (arith, total_from-sum r zero_bundle t, get-zero_bundle r)

register_inflight-promised :
    (r : Resource) (id : ℕ) (give : Bundle) (t : CommitmentTracker)
    → promised r (register_inflight id give t) ≤ promised r t + get give r
unfolding register_inflight
register_inflight-promised r id give [] = omega arith
register_inflight-promised r id give ((i, old) ∷ items) =
    ground (arith, register_inflight-promised r id give items)

resolve_inflight-promised :
    (r : Resource) (id : ℕ) (t : CommitmentTracker)
    → promised r (resolve_inflight id t) ≤ promised r t
unfolding resolve_inflight
resolve_inflight-promised r id [] = omega arith
resolve_inflight-promised r id ((i, old) ∷ items) =
    ground (arith, resolve_inflight-promised r id items)

pub get-available :
    (snap : Snapshot) (t : CommitmentTracker) (r : Resource)
    → get (available_to_commit snap t) r
      ≡ get snap.me.inventory r - get (outstanding_confirmed_give snap) r - get (inflight_total t) r
unfolding available_to_commit
get-available snap t r = omega (
  arith,
  get-saturating_sub (saturating_sub snap.me.inventory (outstanding_confirmed_give snap))
      (inflight_total t) r,
  get-saturating_sub snap.me.inventory (outstanding_confirmed_give snap) r,
)

give_from-sum :
    (snap : Snapshot) (r : Resource) (sum : Bundle) (offers : List Offer)
    → get (give_from snap sum offers) r
      ≡ get sum r
        + sum_by
            (λ (o : Offer). get o.give r)
            (keep_if (λ o. o.proposer_id == snap.self_station_id && is_open_at o snap.tick) offers)
unfolding give_from is_open_at
give_from-sum snap r sum [] = omega arith
give_from-sum snap r sum (o ∷ offers) = ground (
  arith,
  give_from-sum snap r sum offers,
  give_from-sum snap r (add sum o.give) offers,
  get-add sum o.give r,
)

-- What is outstanding is what the open offers that the station proposed give together.
get-outstanding :
    (snap : Snapshot) (r : Resource)
    → get (outstanding_confirmed_give snap) r
      ≡ sum_by (λ (o : Offer). get o.give r) (outgoing_open_offers snap)
unfolding outstanding_confirmed_give outgoing_open_offers
get-outstanding snap r =
    omega (arith, give_from-sum snap r zero_bundle snap.offers, get-zero_bundle r)

-- The uncommitted stock of a resource is the stock less what the station's own open offers give of
-- it and less what the offers in flight give of it, and 0 where these are more than the stock.
pub available_to_commit_exact :
    (snap : Snapshot) (t : CommitmentTracker) (r : Resource)
    → get (available_to_commit snap t) r
      ≡ get snap.me.inventory r
        - (sum_by (λ (o : Offer). get o.give r) (outgoing_open_offers snap)
            + sum_by (λ (item : ℕ × Bundle). get item.1 r) t)
available_to_commit_exact snap t r =
    omega (arith, get-available snap t r, get-outstanding snap r, get-inflight_total r t)

register_inflight-IsCovered :
    (snap : Snapshot) (t : CommitmentTracker) (id : ℕ) (give : Bundle)
    → IsCovered snap t
    → can_afford snap give t ≡ true
    → IsCovered snap (register_inflight id give t)
unfolding can_afford
register_inflight-IsCovered snap t id give h paid r = omega (
  arith,
  h r,
  get-available snap t r,
  dominates→le (available_to_commit snap t) give paid r,
  register_inflight-promised r id give t,
  get-inflight_total r t,
  get-inflight_total r (register_inflight id give t),
)

-- What the client does with its tracker between two snapshots.
pub data Use : Type 0 where
  send : ℕ → Bundle → Use
  resolve : ℕ → Use
  clear : Use

-- One use; an offer is sent only if `can_afford` allows it.
abbrev pub use_once : Snapshot → Use → CommitmentTracker → CommitmentTracker
use_once snap (Use.send id give) t =
    if can_afford snap give t then register_inflight id give t else t
use_once snap (Use.resolve id) t = resolve_inflight id t
use_once snap Use.clear t = clear_inflight t

unfoldable pub use_each : Snapshot → List Use → CommitmentTracker → CommitmentTracker
use_each snap [] t = t
use_each snap (u ∷ uses) t = use_each snap uses (use_once snap u t)

use_once-IsCovered :
    (snap : Snapshot) (u : Use) (t : CommitmentTracker)
    → IsCovered snap t
    → IsCovered snap (use_once snap u t)
use_once-IsCovered snap (Use.send id give) t h = elim (Bool-cases (can_afford snap give t)) [
  | inl paid ↦ rw paid (register_inflight-IsCovered snap t id give h paid)
  | inr dear ↦ rw dear h
]
use_once-IsCovered snap (Use.resolve id) t h = λ r. omega (
  arith,
  h r,
  resolve_inflight-promised r id t,
  get-inflight_total r t,
  get-inflight_total r (resolve_inflight id t),
)
use_once-IsCovered snap Use.clear t h = λ r. omega (arith, h r, get-inflight_total r [])

-- However offers are sent, resolved and cleared under one snapshot, as long as each is sent only if
-- `can_afford` allows it, the open offers and those in flight never promise more than is in stock,
-- if they did not at first.
pub use_each-IsCovered :
    (snap : Snapshot) (uses : List Use) (t : CommitmentTracker)
    → IsCovered snap t
    → IsCovered snap (use_each snap uses t)
unfolding use_each
use_each-IsCovered snap [] t h = h
use_each-IsCovered snap (u ∷ uses) t h =
    use_each-IsCovered snap uses (use_once snap u t) (use_once-IsCovered snap u t h)
