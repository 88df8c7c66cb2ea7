-- ===== src/Models.antt =====
-- The row types of backend/app/db/models.py, by area.
pub mod Accounts
pub mod Chat
pub mod Safety
