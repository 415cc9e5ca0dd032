-- ===== src/Sim/Server.antt =====
-- `BazaarServer` of bazaar_sim/server.py on the messages that its codec decodes. A handler runs as
-- one step, and `sent` is what has gone out, in order; the counters for the report are left out.
-- `none` is a `KeyError`. A station's name for people is given by `names`.
mod State
mod Handlers
pub mod Sending
pub mod Keeping
pub mod Messages
pub mod Steps
pub mod Retry
pub mod Seats
pub mod Finish
unfoldable pub use State.*
unfoldable pub use Handlers.*
