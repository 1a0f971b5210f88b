-- ===== src/Leads.antt =====
-- From an opportunity to a lead: the review of opportunities, suppressions, and the CRM record that
-- follows them (backend/app/modules/review, compliance and crm).
mod Tests
pub mod Model
pub mod Gate
pub mod Schedule
pub mod Suppress
pub mod Review
pub mod Batch
pub mod Undo
pub mod Sync
pub mod Worker
