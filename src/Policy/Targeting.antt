-- ===== src/Policy/Targeting.antt =====
-- bazaar_client/policy/targeting.py: who to approach, and with what. A score is the program's float,
-- and `none` is minus infinity. The quantities wanted are a function, 0 for a resource that is no
-- key: a quantity that is stored is above 0, and the keys are stored in the order of `Resource`.
pub mod Choice
use spaceport_bazzar_client.Base.{
  ltb, if◌then◌else◌, ◌==◌, nat_eq, keep_if, sort_by, first_max, ℕ, ◌-◌, Bool, true, false, not,
  ◌&&◌, ◌||◌, Option, none, some, List, [], ◌∷◌, ◌++◌, map,
}
use spaceport_bazzar_client.Base.Float.{
  Ratio, ratio, ltb_ratio, nearest, float, fl_add, fl_sub, fl_div,
}
use spaceport_bazzar_client.Domain.Bundle.{Resource, resource_eq, resources, Bundle, get}
use spaceport_bazzar_client.Domain.Types.{object_eq}
use spaceport_bazzar_client.World.Counterparties.{
  CounterpartyStats, CounterpartyModel, stations_in_play,
}
use spaceport_bazzar_client.Policy.Reserves.{Urgency, level, is_specialty}

abbrev pub recency_window : ℕ
recency_window = 10

pub record Candidate : Type 0 where
  pub station_id : ℕ
  pub want : Resource
  pub give : Resource
  pub score : Option Ratio

-- `CounterpartyStats.accept_rate`
abbrev pub accept_rate : CounterpartyStats → Ratio
accept_rate s =
    if s.offers_sent_to == 0
    then ratio 1 2
    else fl_div (float s.offers_accepted_by) (float s.offers_sent_to)

-- `max(0.0, 1.0 - (tick - last) / RECENCY_WINDOW)`
abbrev pub recency_since : ℕ → ℕ → Ratio
recency_since tick last =
    let one = ratio 1 1 in
    if ltb tick last
    then fl_add one (nearest (last - tick) recency_window)
    else (let age = nearest (tick - last) recency_window in
        if ltb_ratio age one then fl_sub one age else ratio 0 1)

abbrev pub recency_of : CounterpartyStats → ℕ → Ratio
recency_of s tick = elim s.last_ad_tick [ none ↦ ratio 0 1 | some last ↦ recency_since tick last ]

-- `weight * test`
abbrev pub counts : ℕ → Bool → Ratio
counts weight test = if test then ratio weight 1 else ratio 0 1

unfoldable pub score_counterparty : CounterpartyStats → Resource → Resource → ℕ → Option Ratio
score_counterparty s want give tick =
    if s.station_failed
    then none
    else some (
        fl_add
          (fl_add (fl_add (counts 3 (s.selling want)) (counts 2 (s.seeking give)))
            (recency_of s tick))
          (accept_rate s))

-- `a < b` on scores
abbrev pub ltb_score : Option Ratio → Option Ratio → Bool
ltb_score _ none = false
ltb_score none (some b) = true
ltb_score (some a) (some b) = ltb_ratio a b

-- `key(a) < key(b)`, where the keys are compared by `x`, then by `y`
abbrev pub lex : Bool → Bool → Bool → Bool
lex less greater next = less || not greater && next

-- `a < b` on the keys that `rank_counterparties` gives to a pair of station and payment
unfoldable pub is_worse :
    Bundle
    → Option Resource
    → Resource
    → ℕ
    → CounterpartyStats × Resource
    → CounterpartyStats × Resource
    → Bool
unfolding score_counterparty
is_worse surplus preferred want tick (s, give) (t, pay) =
    let a = score_counterparty s want give tick in
    let b = score_counterparty t want pay tick in
    lex (s.station_failed && not t.station_failed) (not s.station_failed && t.station_failed) (
      lex (not (is_specialty give preferred) && is_specialty pay preferred)
        (is_specialty give preferred && not (is_specialty pay preferred))
        (lex (ltb_score a b) (ltb_score b a) (ltb (get surplus give) (get surplus pay))))

-- The payments for `want` that one station may be offered.
unfoldable pub options_with :
    (ℕ → Resource → Bool)
    → Resource
    → List Resource
    → CounterpartyStats
    → List (CounterpartyStats × Resource)
options_with pending want payable s =
    map (λ give. (s, give))
      (keep_if (λ give. not (give == want) && not (pending s.station_id want)) payable)

unfoldable pub options_for :
    (ℕ → Resource → Bool)
    → Resource
    → List Resource
    → List CounterpartyStats
    → List (CounterpartyStats × Resource)
unfolding options_with
options_for pending want payable [] = []
options_for pending want payable (s ∷ l) =
    options_with pending want payable s ++ options_for pending want payable l

-- The body of the loop of `rank_counterparties`, for one resource.
unfoldable pub best_for :
    Bundle
    → Option Resource
    → ℕ
    → (ℕ → Resource → Bool)
    → List Resource
    → List CounterpartyStats
    → Resource
    → List Candidate
unfolding options_for is_worse
best_for surplus preferred tick pending payable stations want =
    elim (options_for pending want payable stations) [
      | [] ↦ []
      | o ∷ l ↦
          let (s, give) = first_max (is_worse surplus preferred want tick) o l in
          elim (score_counterparty s want give tick) [
            | none ↦ []
            | some best ↦
                record { station_id = s.station_id; want = want; give = give; score = some best }
                ∷ []
          ]
    ]

unfoldable pub candidates_for :
    Bundle
    → Option Resource
    → ℕ
    → (ℕ → Resource → Bool)
    → List Resource
    → List CounterpartyStats
    → List Resource
    → List Candidate
unfolding best_for
candidates_for surplus preferred tick pending payable stations [] = []
candidates_for surplus preferred tick pending payable stations (want ∷ needs) =
    best_for surplus preferred tick pending payable stations want
    ++ candidates_for surplus preferred tick pending payable stations needs

-- `key(a) <= key(b)` of the sort of the needs, the most urgent first
abbrev pub is_as_urgent : (Resource → Urgency) → (Resource → ℕ) → Resource → Resource → Bool
is_as_urgent urgency wanted a b = not (
    lex (ltb (level (urgency a)) (level (urgency b))) (ltb (level (urgency b)) (level (urgency a)))
      (ltb (wanted a) (wanted b)))

-- `rank_counterparties`
unfoldable pub rank_counterparties :
    CounterpartyModel
    → (Resource → Urgency)
    → (Resource → ℕ)
    → Bundle
    → ℕ
    → (ℕ → Resource → Bool)
    → Option Resource
    → List Candidate
unfolding candidates_for
rank_counterparties model urgency wanted surplus tick pending preferred =
    let needs = sort_by (is_as_urgent urgency wanted) (keep_if (λ r. ltb 0 (wanted r)) resources) in
    let payable = keep_if (λ r. ltb 0 (get surplus r)) resources in
    candidates_for surplus preferred tick pending payable (stations_in_play model) needs
