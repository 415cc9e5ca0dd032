-- ===== src/Policy.antt =====
-- The trading policy (bazaar_client/policy/).
pub mod Memory
pub mod Reserves
pub mod Accept
pub mod Advertising
pub mod Pricing
pub mod Altruism
pub mod Targeting
pub mod Decide
pub mod Tests
