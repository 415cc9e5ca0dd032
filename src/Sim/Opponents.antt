-- ===== src/Sim/Opponents.antt =====
-- The stand-in players of bazaar_sim/opponents.py. A player's state is the position of its rotation;
-- `none` is a raised exception.
pub mod Paying
use spaceport_bazzar_client.Base.{
  ltb, leb, if◌then◌else◌, ◌==◌, nat_eq, ◌>>=◌, length, keep_if, any, ℕ, zero, suc, ◌+◌, ◌-◌, ◌%◌,
  min, Bool, true, false, not, ◌&&◌, ◌||◌, Option, none, some, List, [], ◌∷◌, ◌++◌, map,
}
use spaceport_bazzar_client.Domain.Bundle.{
  Resource, resource_eq, resources, Bundle, get, zero_bundle, single, dominates, sub, total,
}
use spaceport_bazzar_client.Domain.Types.{
  object_eq, DirectoryEntry, Offer, Snapshot, incoming_open_offers,
}
use spaceport_bazzar_client.Execution.Actions.{Action}

-- `imports_of`
abbrev pub imports_of : Snapshot → List Resource
imports_of obs = keep_if (λ r. not (r == obs.me.specialty)) resources

-- `others_of`
abbrev pub others_of : Snapshot → List ℕ
others_of obs =
    keep_if (λ sid. not (sid == obs.self_station_id))
      (map (λ (d : DirectoryEntry). d.station_id) obs.directory)

-- `expiry`
abbrev pub expiry : Snapshot → ℕ → ℕ
expiry obs ttl = min (obs.tick + ttl) obs.rules.duration_ticks

-- An offer that the loop of `accept_if_not_worse` passes over.
unfoldable pub is_poor : Snapshot → Bool → Bundle → Offer → Bool
is_poor obs only_specialty inventory o =
    ltb (total o.give) (total o.receive)
    || not (dominates inventory o.receive)
    || only_specialty && any (λ r. ltb 0 (get o.receive r)) (imports_of obs)

-- The loop of `accept_if_not_worse`, once `count` offers are accepted: the offers that it accepts.
unfoldable pub accept_from : Snapshot → Bool → ℕ → ℕ → Bundle → List Offer → Option (List Offer)
unfolding is_poor
accept_from obs only_specialty limit count inventory [] = some []
accept_from obs only_specialty limit count inventory (o ∷ offers) =
    elim (is_poor obs only_specialty inventory o) [
      | true ↦ accept_from obs only_specialty limit count inventory offers
      | false ↦ sub inventory o.receive >>= λ (left : Bundle). elim (leb limit (count + 1)) [
        | true ↦ some (o ∷ [])
        | false ↦
            accept_from obs only_specialty limit (count + 1) left offers >>= λ (rest : List Offer).
            some (o ∷ rest)
      ]
    ]

-- `accept_if_not_worse`, with its default limit
unfoldable pub accept_if_not_worse : Snapshot → Bool → Option (List Action)
unfolding accept_from
accept_if_not_worse obs only_specialty =
    accept_from obs only_specialty 2 0 obs.me.inventory (incoming_open_offers obs)
    >>= λ (l : List Offer). some (map (λ (o : Offer). Action.accept o.offer_id) l)

-- `choices[i]`; an index that is not there is an `IndexError`
abbrev pub item_at : List ℕ → ℕ → Option ℕ
item_at [] i = none
item_at (x ∷ xs) zero = some x
item_at (x ∷ xs) (suc i) = item_at xs i

-- `_RoundRobin.next`: the choice and the next position; no choices are a `ZeroDivisionError`
unfoldable pub next_choice : List ℕ → ℕ → Option (ℕ × ℕ)
next_choice choices position =
    if length choices == 0
    then none
    else (item_at choices (position % length choices) >>= λ choice. some (choice, position + 1))

-- A running state of the loops: the actions, what is spare and the position.
pub record Asking : Type 0 where
  pub actions : List Action
  pub spare : ℕ
  pub position : ℕ

-- `actions.append(OfferAction(...))` and `spare -= ...`
unfoldable pub ask_for : Snapshot → ℕ → ℕ → Resource → ℕ → Asking → Option Asking
unfolding next_choice
ask_for obs paid asked want ttl a = next_choice (others_of obs) a.position >>= λ (c : ℕ × ℕ).
    some (record {
      actions =
          a.actions
          ++ Action.offer (record {
            recipient_id = c.0;
            give = single obs.me.specialty paid;
            receive = single want asked;
            expires_tick = expiry obs ttl;
          })
            ∷ [];
      spare = a.spare - paid;
      position = c.1;
    })

-- The inner loop of `Greedy.act`, for as many rounds.
unfoldable pub greedy_rounds : Snapshot → Resource → ℕ → Asking → Option Asking
unfolding ask_for
greedy_rounds obs want zero a = some a
greedy_rounds obs want (suc n) a =
    elim (leb obs.rules.new_commands_per_station_per_tick (length a.actions) || ltb a.spare 2) [
      | true ↦ some a
      | false ↦ ask_for obs 2 4 want 5 a >>= λ (b : Asking). greedy_rounds obs want n b
    ]

unfoldable pub greedy_imports : Snapshot → List Resource → Asking → Option Asking
unfolding greedy_rounds
greedy_imports obs [] a = some a
greedy_imports obs (want ∷ wants) a = elim (leb 25 (get obs.me.inventory want) || ltb a.spare 2) [
  | true ↦ greedy_imports obs wants a
  | false ↦ greedy_rounds obs want 2 a >>= λ (b : Asking). greedy_imports obs wants b
]

-- `Greedy.act`
unfoldable pub greedy_act : ℕ → Snapshot → Option (List Action × ℕ)
unfolding greedy_imports accept_if_not_worse
greedy_act position obs = do
  accepts ← accept_if_not_worse obs false
  last ← greedy_imports obs (imports_of obs) (record {
    actions = accepts;
    spare = get obs.me.inventory obs.me.specialty;
    position = position;
  })
  some (last.actions, last.position)

-- `Gifter.act`
unfoldable pub gifter_act : ℕ → Snapshot → Option (List Action × ℕ)
unfolding accept_if_not_worse next_choice
gifter_act position obs = do
  accepts ← accept_if_not_worse obs false
  elim (ltb 5 (get obs.me.inventory obs.me.specialty)) [
    | false ↦ some (accepts, position)
    | true ↦ next_choice (others_of obs) position >>= λ (c : ℕ × ℕ). some (
      accepts
          ++ Action.offer (record {
            recipient_id = c.0;
            give = single obs.me.specialty 2;
            receive = zero_bundle;
            expires_tick = expiry obs 2;
          })
            ∷ [],
      c.1,
    )
  ]

pub record SmallFair : Type 0 where
  pub size : ℕ
  pub target : ℕ
  pub quit_at : Option ℕ

-- The loop of `SmallFair.act`. What is spare there is three less than here, and may be negative.
unfoldable pub fair_imports : SmallFair → Snapshot → List Resource → Asking → Option Asking
unfolding ask_for
fair_imports p obs [] a = some a
fair_imports p obs (want ∷ wants) a =
    elim (leb p.target (get obs.me.inventory want) || ltb a.spare (p.size + 3)) [
      | true ↦ fair_imports p obs wants a
      | false ↦ elim (leb obs.rules.new_commands_per_station_per_tick (length a.actions)) [
        | true ↦ some a
        | false ↦ ask_for obs p.size p.size want 3 a >>= λ (b : Asking). fair_imports p obs wants b
      ]
    ]

-- `self.quit_at is not None and obs.tick >= self.quit_at`
abbrev pub has_quit : Option ℕ → ℕ → Bool
has_quit none tick = false
has_quit (some last) tick = leb last tick

-- `SmallFair.act`
unfoldable pub fair_act : SmallFair → ℕ → Snapshot → Option (List Action × ℕ)
unfolding fair_imports accept_if_not_worse
fair_act p position obs =
    if has_quit p.quit_at obs.tick
    then some ([], position)
    else (accept_if_not_worse obs true >>= λ (accepts : List Action).
        fair_imports p obs (imports_of obs) (record {
          actions =
              if obs.tick % 5 == 0
              then accepts
                ++ Action.advertise (record {
                  selling = λ r. r == obs.me.specialty;
                  seeking = λ r. not (r == obs.me.specialty);
                  expires_tick = expiry obs 8;
                })
                  ∷ []
              else accepts;
          spare = get obs.me.inventory obs.me.specialty;
          position = position;
        })
        >>= λ (last : Asking). some (last.actions, last.position))

-- `Quitter()`
abbrev pub quitter : SmallFair
quitter = record { size = 3; target = 15; quit_at = some 45 }
