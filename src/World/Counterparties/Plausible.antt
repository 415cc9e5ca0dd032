-- ===== src/World/Counterparties/Plausible.antt =====
-- The estimates of bazaar_client/world/counterparties.py stay consistent.
use spaceport_bazzar_client.Base.{
  ◌==◌, nat_eq, Bool-cases, any, All, ℕ, ◌+◌, ◌≤◌, ◌<◌, ◌≡◌, ◌⊎◌, inl, inr, true, Option, none,
  some, List, [], ◌∷◌, arith,
}
use spaceport_bazzar_client.Domain.Bundle.{Resource, resource_eq}
use spaceport_bazzar_client.Domain.Types.{
  OfferStatus, object_eq, DirectoryEntry, Offer, Advertisement,
}
use spaceport_bazzar_client.World.Counterparties.{
  CounterpartyStats, new_stats, change_or_add, update_directory, hear, hear_each, silence,
}
use spaceport_bazzar_client.World.Counterparties.History.{took, let_lapse, decided}

-- The size limit, 1 where there is none.
abbrev pub limit_or_one : Option ℕ → ℕ
limit_or_one none = 1
limit_or_one (some limit) = limit

-- Acceptances and lapses since the last one are among the offers sent, so that the acceptance rate
-- is at most one; a size limit is at least 1; only a resource that is sought has a streak.
pub record IsPlausible (s : CounterpartyStats) : Type 0 where
  pub rated : s.offers_accepted_by + s.consecutive_expired ≤ s.offers_sent_to
  pub limited : 0 < limit_or_one s.size_limit
  pub sought : (r : Resource) → (s.seeking_streak r ≡ 0) ⊎ (s.seeking r ≡ true)

new_stats-IsPlausible : (sid : ℕ) → IsPlausible (new_stats sid)
new_stats-IsPlausible sid = record {
  rated = omega arith;
  limited = omega arith;
  sought = λ r. ground arith;
}

-- What keeps one station plausible.
abbrev pub Keeps : (CounterpartyStats → CounterpartyStats) → Type 0
Keeps f = (s : CounterpartyStats) → IsPlausible s → IsPlausible (f s)

pub change_or_add-IsPlausible :
    (sid : ℕ) (f : CounterpartyStats → CounterpartyStats) (l : List CounterpartyStats)
    → Keeps f
    → All IsPlausible l
    → All IsPlausible (change_or_add sid f l)
unfolding change_or_add
change_or_add-IsPlausible sid f [] k h = (k (new_stats sid) (new_stats-IsPlausible sid), tt)
change_or_add-IsPlausible sid f (s ∷ l) k h = elim (Bool-cases (s.station_id == sid)) [
  | inl same ↦ rw same (k s h.0, h.1)
  | inr other ↦ rw other (h.0, change_or_add-IsPlausible sid f l k h.1)
]

pub update_directory-IsPlausible :
    (me : ℕ) (directory : List DirectoryEntry) (l : List CounterpartyStats)
    → All IsPlausible l
    → All IsPlausible (update_directory me directory l)
unfolding update_directory
update_directory-IsPlausible me [] l h = h
update_directory-IsPlausible me (d ∷ directory) l h = elim (Bool-cases (d.station_id == me)) [
  | inl own ↦ rw own (update_directory-IsPlausible me directory l h)
  | inr other ↦
      let name = λ (s : CounterpartyStats). record s { display_name = d.display_name } in
      rw other (
        update_directory-IsPlausible me directory (change_or_add d.station_id name l) (
          change_or_add-IsPlausible d.station_id name l
            (λ s k. record { rated = k.rated; limited = k.limited; sought = k.sought }) h))
]

hear-IsPlausible : (tick : ℕ) (ad : Advertisement) → Keeps (hear tick ad)
hear-IsPlausible tick ad s k = record {
  rated = k.rated;
  limited = k.limited;
  sought = λ r. ground arith;
}

pub hear_each-IsPlausible :
    (tick : ℕ) (active : List Advertisement) (l : List CounterpartyStats)
    → All IsPlausible l
    → All IsPlausible (hear_each tick active l)
unfolding hear_each
hear_each-IsPlausible tick [] l h = h
hear_each-IsPlausible tick (ad ∷ active) l h =
    hear_each-IsPlausible tick active (change_or_add ad.station_id (hear tick ad) l)
      (change_or_add-IsPlausible ad.station_id (hear tick ad) l (hear-IsPlausible tick ad) h)

pub silence-IsPlausible : (active : List Advertisement) → Keeps (silence active)
silence-IsPlausible active s k =
    elim (Bool-cases (any (λ ad. ad.station_id == s.station_id) active)) [
      | inl there ↦ rw there k
      | inr gone ↦
          rw gone (record { rated = k.rated; limited = k.limited; sought = λ r. ground arith })
    ]

took-IsPlausible : Keeps took
took-IsPlausible s k = record {
  rated = omega (arith, k.rated);
  limited = ground (arith, k.limited);
  sought = k.sought;
}

let_lapse-IsPlausible : (o : Offer) → Keeps (let_lapse o)
let_lapse-IsPlausible o s k = record {
  rated = omega (arith, k.rated);
  limited = ground (arith, k.limited);
  sought = k.sought;
}

pub decided-IsPlausible : (o : Offer) → Keeps (decided o)
decided-IsPlausible o s k = go o.status
  where
    go :
        (status : OfferStatus)
        → IsPlausible (elim status [ OfferStatus.accepted ↦ took s | _ ↦ let_lapse o s ])
    go OfferStatus.accepted = took-IsPlausible s k
    go OfferStatus.open_ = let_lapse-IsPlausible o s k
    go OfferStatus.withdrawn = let_lapse-IsPlausible o s k
    go OfferStatus.expired = let_lapse-IsPlausible o s k
    go OfferStatus.run_ended = let_lapse-IsPlausible o s k
