-- ===== src/Casebook.antt =====
-- The casebook (src/soloscale/casebook_models.py, casebook_store.py): learning cases, practice attempts
-- with their receipts, and the mastery that is derived from them.
pub mod Models
pub mod Mastery
pub mod Store
pub mod Integrity
mod Tests
