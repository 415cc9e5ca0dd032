-- ===== src/Sim.antt =====
-- The simulator (bazaar_sim/).
pub mod Station
pub mod Economy
pub mod Server
pub mod World
pub mod Opponents
pub mod Tests
