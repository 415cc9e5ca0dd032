-- ===== src/Execution.antt =====
-- What the client does (bazaar_client/execution/).
pub mod Actions
