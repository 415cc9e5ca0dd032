-- ===== src/Sim/Economy/Invariant.antt =====
-- What holds of the economy (bazaar_sim/economy.py) at every moment of a run.
pub mod Offers
pub mod Counting
pub mod Commands
pub mod Closing
pub mod Time
pub mod Cleanup
pub mod Start
use spaceport_bazzar_client.Base.{
  All, ℕ, ◌≤◌, ◌<◌, ◌≡◌, ◌≢◌, true, false, not, none, some, List, [], ◌∷◌,
}
use spaceport_bazzar_client.Domain.Bundle.{Bundle, is_zero}
use spaceport_bazzar_client.Domain.Types.{ObjectId, is_open, Offer}
use spaceport_bazzar_client.Sim.Station.{SimStation, is_some, IsSound}
use spaceport_bazzar_client.Sim.Economy.{Economy, station_of, count_of, open_count}

-- `sid in self.stations`
abbrev pub IsKnown : ℕ → List SimStation → Type 0
IsKnown sid l = station_of sid l ≢ none

-- An offer as `_post_offer` makes it and `_close` leaves it: a number that was given out, two
-- different parties on the roster, goods on the proposer's side, and, while it is open, a deadline
-- ahead and no closing date.
pub record IsFormed (e : Economy) (o : Offer) : Type 0 where
  pub number : ℕ
  pub numbered : o.offer_id ≡ ObjectId.offer number
  pub given_out : number < e.next_id
  pub distinct : o.recipient_id ≢ o.proposer_id
  pub proposer_known : IsKnown o.proposer_id e.stations
  pub recipient_known : IsKnown o.recipient_id e.stations
  pub gives : is_zero o.give ≡ false
  pub live : is_open o.status ≡ true → e.tick < o.expires_tick
  pub dated : is_some o.closed_tick ≡ not (is_open o.status)

-- No two offers share an id.
abbrev pub Unique : List Offer → Type 0
Unique [] = Unit
Unique (o ∷ l) = All (λ p. p.offer_id ≢ o.offer_id) l × Unique l

-- `starts` gives each station's stock at the start of the run.
pub record IsValid (starts : ℕ → Bundle) (e : Economy) : Type 0 where
  pub sound :
      (x : ℕ) (s : SimStation) → station_of x e.stations ≡ some s → IsSound e.rules (starts x) s
  pub formed : All (IsFormed e) e.offers
  pub unique : Unique e.offers
  pub room : (x : ℕ) → open_count x e.offers ≤ e.rules.max_open_outgoing_offers
  pub quota : (x : ℕ) → count_of x e.command_counts ≤ e.rules.new_commands_per_station_per_tick
