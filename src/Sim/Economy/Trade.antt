-- ===== src/Sim/Economy/Trade.antt =====
-- What `_accept` (bazaar_sim/economy.py) does to the stations when it settles an offer.
use spaceport_bazzar_client.Base.{
  Bool-cases, >>=-eq_some, sum_by, ℕ, ◌+◌, ◌≡◌, ◌≢◌, inl, inr, true, Option, none, some, List,
  arith,
}
use spaceport_bazzar_client.Domain.Bundle.{Resource, Bundle, get, add, dominates, saturating_sub}
use spaceport_bazzar_client.Domain.Bundle.Laws.{
  get-add, get-saturating_sub, dominates→le, sub-eq_saturating_sub, sub-eq_none,
}
use spaceport_bazzar_client.Domain.Types.{Offer}
use spaceport_bazzar_client.Sim.Station.{SimStation}
use spaceport_bazzar_client.Sim.Economy.{
  station_of, try_station, exchange, count_trade, settlement, counted,
}
use spaceport_bazzar_client.Sim.Economy.Stations.{
  KeepsId, changed_at, station_of-try_station, sum_by-try_station, try_station_known,
}

abbrev pub exchanged : Bundle → Bundle → SimStation → SimStation
exchanged paid got s = record s { inventory = add (saturating_sub s.inventory paid) got }

pub exchange-eq_some :
    (paid got : Bundle) (s : SimStation)
    → dominates s.inventory paid ≡ true
    → exchange paid got s ≡ some (exchanged paid got s)
unfolding exchange
exchange-eq_some paid got s h = rw (sub-eq_saturating_sub s.inventory paid h)

-- An exchange goes through exactly when the payment is covered.
pub exchange-inversion :
    (paid got : Bundle) (s s' : SimStation)
    → exchange paid got s ≡ some s'
    → (dominates s.inventory paid ≡ true) × (s' ≡ exchanged paid got s)
unfolding exchange
exchange-inversion paid got s s' e = elim (Bool-cases (dominates s.inventory paid)) [
  | inl covered ↦ ground (arith, exchange-eq_some paid got s)
  | inr short ↦ ground (arith, sub-eq_none s.inventory paid)
]

pub exchange-KeepsId : (paid got : Bundle) → KeepsId (exchange paid got)
exchange-KeepsId paid got s s' e = ground (arith, exchange-inversion paid got s s')

pub count_trade-KeepsId : (paid got : Bundle) → KeepsId (count_trade paid got)
unfolding count_trade
count_trade-KeepsId paid got s s' e = ground arith

exchange_moves :
    (paid got : Bundle) (r : Resource) (s s' : SimStation)
    → exchange paid got s ≡ some s'
    → get s'.inventory r + get paid r ≡ get s.inventory r + get got r
exchange_moves paid got r s s' e =
    let (covered, same) = exchange-inversion paid got s s' e in
    rw same (
      omega (
        arith,
        dominates→le s.inventory paid covered r,
        get-add (saturating_sub s.inventory paid) got r,
        get-saturating_sub s.inventory paid r,
      ))

count_trade_moves :
    (paid got : Bundle) (r : Resource) (s s' : SimStation)
    → count_trade paid got s ≡ some s'
    → get s'.inventory r + 0 ≡ get s.inventory r + 0
unfolding count_trade
count_trade_moves paid got r s s' e = ground arith

-- The stock of one resource in the whole world.
abbrev pub stock : Resource → List SimStation → ℕ
stock r = sum_by (λ s. get s.inventory r)

-- The lists of stations between the writes.
record Writes (o : Offer) (l l' : List SimStation) : Type 0 where
  paid : List SimStation
  both : List SimStation
  counted : List SimStation
  first : try_station o.proposer_id (exchange o.give o.receive) l ≡ some paid
  second : try_station o.recipient_id (exchange o.receive o.give) paid ≡ some both
  third : try_station o.proposer_id (count_trade o.give o.receive) both ≡ some counted
  fourth : try_station o.recipient_id (count_trade o.receive o.give) counted ≡ some l'

settlement-Writes :
    (o : Offer) (l : List SimStation) {l' : List SimStation}
    → settlement o l ≡ some l'
    → Writes o l l'
settlement-Writes o l e =
    let (paid, first, e₁) =
      >>=-eq_some (try_station o.proposer_id (exchange o.give o.receive) l) _ e in
    let (both, second, e₂) =
      >>=-eq_some (try_station o.recipient_id (exchange o.receive o.give) paid) _ e₁ in
    let (counted, third, fourth) =
      >>=-eq_some (try_station o.proposer_id (count_trade o.give o.receive) both) _ e₂ in
    record {
      paid = paid;
      both = both;
      counted = counted;
      first = first;
      second = second;
      third = third;
      fourth = fourth;
    }

pub stock-settlement :
    (o : Offer) (r : Resource) (l : List SimStation) {l' : List SimStation}
    → settlement o l ≡ some l'
    → stock r l' ≡ stock r l
stock-settlement o r l e =
    let w = settlement-Writes o l e in
    let held = λ (s : SimStation). get s.inventory r in
    let gave = get o.give r in
    let took = get o.receive r in
    omega (
      arith,
      sum_by-try_station o.proposer_id (exchange o.give o.receive) held gave took l
          (exchange_moves o.give o.receive r) w.first,
      sum_by-try_station o.recipient_id (exchange o.receive o.give) held took gave w.paid
          (exchange_moves o.receive o.give r) w.second,
      sum_by-try_station o.proposer_id (count_trade o.give o.receive) held 0 0 w.both
          (count_trade_moves o.give o.receive r) w.third,
      sum_by-try_station o.recipient_id (count_trade o.receive o.give) held 0 0 w.counted
          (count_trade_moves o.receive o.give r) w.fourth,
    )

-- What is found under `x` after the four writes.
abbrev pub traded_at : Offer → ℕ → Option SimStation → Option SimStation
traded_at o x found = changed_at o.recipient_id (count_trade o.receive o.give) x (
    changed_at o.proposer_id (count_trade o.give o.receive) x (
      changed_at o.recipient_id (exchange o.receive o.give) x
        (changed_at o.proposer_id (exchange o.give o.receive) x found)))

pub station_of-settlement :
    (o : Offer) (x : ℕ) (l : List SimStation) {l' : List SimStation}
    → settlement o l ≡ some l'
    → station_of x l' ≡ traded_at o x (station_of x l)
station_of-settlement o x l e =
    let w = settlement-Writes o l e in
    rw (
      station_of-try_station o.recipient_id _ x w.counted (count_trade-KeepsId o.receive o.give)
          w.fourth,
      station_of-try_station o.proposer_id _ x w.both (count_trade-KeepsId o.give o.receive)
          w.third,
      station_of-try_station o.recipient_id _ x w.paid (exchange-KeepsId o.receive o.give) w.second,
      station_of-try_station o.proposer_id _ x l (exchange-KeepsId o.give o.receive) w.first,
    )

-- No station leaves the roster.
pub settlement_known :
    (o : Offer) (x : ℕ) (l : List SimStation) {l' : List SimStation}
    → settlement o l ≡ some l'
    → station_of x l ≢ none
    → station_of x l' ≢ none
settlement_known o x l e h =
    let w = settlement-Writes o l e in
    try_station_known o.recipient_id _ x w.counted (count_trade-KeepsId o.receive o.give) w.fourth (
      try_station_known o.proposer_id _ x w.both (count_trade-KeepsId o.give o.receive) w.third (
        try_station_known o.recipient_id _ x w.paid (exchange-KeepsId o.receive o.give) w.second
          (try_station_known o.proposer_id _ x l (exchange-KeepsId o.give o.receive) w.first h)))

pub traded_at-none : (o : Offer) (x : ℕ) → traded_at o x none ≡ none
traded_at-none o x = ground arith
