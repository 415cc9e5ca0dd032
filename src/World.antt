-- ===== src/World.antt =====
-- What the client believes about the world (bazaar_client/world/).
pub mod Commitments
pub mod Model
pub mod Counterparties
pub mod Tests
