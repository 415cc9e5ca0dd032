-- ===== src/Connection.antt =====
-- The connection to the server (bazaar_client/connection/).
pub mod Lifecycle
pub mod Throttle
pub mod Requests
pub mod Tests
