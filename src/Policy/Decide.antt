-- ===== src/Policy/Decide.antt =====
-- bazaar_client/policy/decide.py: one decision from one observation. The reasons of a decision are
-- texts for people and are left out. The balance that the steps of a decision share is a `Turn`: the
-- actions so far, the commands left and the stock that is not committed. A command budget below 0
-- counts as 0 in the code, and is 0 here; so does the room for offers.
mod Turn
mod Incoming
mod Outgoing
mod Gifts
mod Pipeline
pub mod Kept
pub mod Listed
pub mod Accepting
pub mod Offering
pub mod Giving
pub mod Publishing
pub mod Prudence
pub mod Gate
pub mod Served
pub mod Player
unfoldable pub use Turn.*
unfoldable pub use Incoming.*
unfoldable pub use Outgoing.*
unfoldable pub use Gifts.*
unfoldable pub use Pipeline.*
