-- ===== src/SkillOs.antt =====
-- Skill OS (src/soloscale/skill_models.py, skill_os.py): the registry of Skills, the order of their
-- dependencies, the route of a request, and the receipt of a run.
pub mod Models
pub mod Registry
pub mod Order
pub mod Request
pub mod Route
pub mod Receipt
pub mod Samples
mod Tests
