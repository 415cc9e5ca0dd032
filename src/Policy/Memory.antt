-- ===== src/Policy/Memory.antt =====
-- `PolicyMemory` of bazaar_client/policy/memory.py. A deque of at most eight samples is a list,
-- oldest first.
pub mod Blocking
use spaceport_bazzar_client.Base.{
  ltb, leb, if◌then◌else◌, ◌==◌, nat_eq, length, any, get_or, drop_first, ℕ, ◌+◌, ◌-◌, ◌/◌, ◌%◌,
  min, max, Bool, false, not, ◌&&◌, ◌||◌, Option, none, some, List, [], ◌∷◌, ◌++◌,
}
use spaceport_bazzar_client.Base.Int.{ℤ, pos, sub_ℕ}
use spaceport_bazzar_client.Domain.Bundle.{Resource, resource_eq, Bundle, get, zero_bundle}
use spaceport_bazzar_client.Domain.Types.{ObjectId, object_eq, Offer, Transaction, Snapshot}
use spaceport_bazzar_client.World.Counterparties.{CounterpartyModel, no_counterparties}
use spaceport_bazzar_client.World.Counterparties.History.{update}

pub record PolicyMemory : Type 0 where
  pub run_id : Option ℕ
  pub counterparties : CounterpartyModel
  pub round_trips : List ℕ
  pub productions : List ℕ
  pub blocked_until_tick : ℕ
  pub altruism_log : List ((ℕ × Resource) × ℕ)
  pub stored_reserve : Bundle
  pub measured_transactions : List ObjectId
  -- `none` is the -1 of a memory that has seen no tick
  pub last_tick_seen : Option ℕ

abbrev pub new_memory : PolicyMemory
new_memory = record {
  run_id = none;
  counterparties = no_counterparties;
  round_trips = [];
  productions = [];
  blocked_until_tick = 0;
  altruism_log = [];
  stored_reserve = zero_bundle;
  measured_transactions = [];
  last_tick_seen = none;
}

abbrev pub samples : ℕ
samples = 8

-- `append` on a deque with `maxlen` 8: the oldest sample falls out
pub push_sample : ℕ → List ℕ → List ℕ
push_sample n l =
    let grown = l ++ n ∷ [] in if ltb samples (length grown) then drop_first grown else grown

pub insert_sorted : ℕ → List ℕ → List ℕ
insert_sorted n [] = n ∷ []
insert_sorted n (m ∷ l) = let rest = insert_sorted n l in if leb n m then n ∷ m ∷ l else m ∷ rest

pub sorted : List ℕ → List ℕ
unfolding insert_sorted
sorted [] = []
sorted (n ∷ l) = insert_sorted n (sorted l)

-- `round((a + b) / 2)`: a half is rounded to the even neighbour
pub round_half : ℕ → ℕ → ℕ
round_half a b =
    let down = (a + b) / 2 in
    if (a + b) % 2 == 0 then down else if down % 2 == 0 then down else down + 1

-- `round(statistics.median(l))` of at least one sample
pub median : List ℕ → ℕ
unfolding sorted round_half
median l =
    let s = sorted l in
    let n = length s in
    if n % 2 == 1
    then get_or s (n / 2) 0
    else round_half (get_or s (n / 2 - 1) 0) (get_or s (n / 2) 0)

unfoldable pub median_round_trip : PolicyMemory → Option ℕ
unfolding median
median_round_trip m = if ltb (length m.round_trips) 3 then none else some (median m.round_trips)

pub minimum : ℕ → List ℕ → ℕ
minimum n [] = n
minimum n (m ∷ l) = minimum (min n m) l

unfoldable pub min_recent_production : PolicyMemory → Option ℕ
unfolding minimum
min_recent_production m = elim m.productions [ [] ↦ none | n ∷ l ↦ some (minimum n l) ]

-- `(a, r) == (b, s)`
abbrev pub same_gift : ℕ × Resource → ℕ × Resource → Bool
same_gift (a, r) (b, s) = a == b && r == s

-- `self.altruism_log.get(key)`
pub last_gift : ℕ × Resource → List ((ℕ × Resource) × ℕ) → Option ℕ
last_gift key [] = none
last_gift key ((k, tick) ∷ log) = if same_gift k key then some tick else last_gift key log

-- `self.altruism_log[key] = tick`
pub set_gift : ℕ × Resource → ℕ → List ((ℕ × Resource) × ℕ) → List ((ℕ × Resource) × ℕ)
set_gift key tick [] = (key, tick) ∷ []
set_gift key tick ((k, t) ∷ log) =
    if same_gift k key then (key, tick) ∷ log else (k, t) ∷ set_gift key tick log

unfoldable pub record_gift : ℕ → Resource → ℕ → PolicyMemory → PolicyMemory
unfolding set_gift
record_gift sid r tick m = record m { altruism_log = set_gift (sid, r) tick m.altruism_log }

unfoldable pub ticks_since_gift : ℕ → Resource → ℕ → PolicyMemory → ℤ
unfolding last_gift
ticks_since_gift sid r tick m = elim (last_gift (sid, r) m.altruism_log) [
  | some last ↦ sub_ℕ tick last
  | none ↦ pos 1000000
]

unfoldable pub block_until : Option ℕ → PolicyMemory → PolicyMemory
block_until none m = m
block_until (some tick) m = record m { blocked_until_tick = max m.blocked_until_tick tick }

-- `created.get(offer_id)` of `_measure_round_trips`: the last offer with the id counts
abbrev pub created_tick_of : ObjectId → List Offer → Option ℕ
created_tick_of oid [] = none
created_tick_of oid (o ∷ l) = elim (created_tick_of oid l) [
  | some tick ↦ some tick
  | none ↦ if o.offer_id == oid then some o.created_tick else none
]

-- One round of the loop of `_measure_round_trips`.
pub measure_round_trip : Snapshot → Transaction → PolicyMemory → PolicyMemory
unfolding push_sample
measure_round_trip snap t m =
    if not (t.proposer_id == snap.self_station_id)
      || any (λ i. i == t.transaction_id) m.measured_transactions
    then m
    else elim (created_tick_of t.offer_id snap.offers) [
      | none ↦ m
      | some created ↦ record m {
        measured_transactions = t.transaction_id ∷ m.measured_transactions;
        round_trips = push_sample (t.settled_tick - created) m.round_trips;
      }
    ]

pub measure_round_trips : Snapshot → List Transaction → PolicyMemory → PolicyMemory
unfolding measure_round_trip
measure_round_trips snap [] m = m
measure_round_trips snap (t ∷ l) m = measure_round_trips snap l (measure_round_trip snap t m)

pub measure_production : Snapshot → PolicyMemory → PolicyMemory
unfolding push_sample
measure_production snap m =
    let seen : Bool = elim m.last_tick_seen [ none ↦ false | some tick ↦ snap.tick == tick ] in
    if seen || snap.tick == 0 then m else record m {
      last_tick_seen = some snap.tick;
      productions = push_sample (get snap.me.last_production snap.me.specialty) m.productions;
    }

pub observe : Snapshot → PolicyMemory → PolicyMemory
unfolding measure_round_trips measure_production
observe snap m =
    let met : PolicyMemory = record m { counterparties = update snap m.counterparties } in
    measure_production snap (measure_round_trips snap snap.transactions met)
