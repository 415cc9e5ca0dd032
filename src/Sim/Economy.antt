-- ===== src/Sim/Economy.antt =====
-- `SimulatedEconomy` of bazaar_sim/economy.py, the rule engine of the simulator.
mod State
mod Precheck
mod Posting
mod Accept
mod Execute
mod Time
mod View
pub mod Stations
pub mod Trade
pub mod Ledger
pub mod Effect
pub mod Invariant
pub mod Conservation
pub mod Total
pub mod Run
unfoldable pub use State.*
unfoldable pub use Precheck.*
unfoldable pub use Posting.*
unfoldable pub use Accept.*
unfoldable pub use Execute.*
unfoldable pub use Time.*
unfoldable pub use View.*
