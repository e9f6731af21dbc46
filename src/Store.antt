-- ===== src/Store.antt =====
-- postgres/internal/store: the adapter that keeps the lifecycle in PostgreSQL.
pub mod Vendors
pub mod Tables
pub mod Transaction
pub mod Claims
pub mod Events
pub mod Acknowledge
pub mod Plan
pub mod Determination
pub mod Import
pub mod Identity
pub mod Rate
pub mod Status
pub mod Exceptions
pub mod Machine
