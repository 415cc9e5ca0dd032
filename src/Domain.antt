-- ===== src/Domain.antt =====
-- The domain types of bazaar_client/domain/types.py.
pub mod Bundle
pub mod Types
