-- ===== src/ResumeCloud.antt =====
-- The resume cloud worker (src/soloscale/resume_cloud_models.py, resume_cloud_repository.py,
-- resume_cloud_service.py, and the tables of migrations/resume_cloud): tasks with leases, a result
-- cache and a rate limit in one PostgreSQL database.
pub mod Models
pub mod Table
pub mod RateLimit
pub mod Repository
pub mod Service
mod Tests
