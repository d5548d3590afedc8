-- ===== src/Jobs.antt =====
-- internal/jobs and the job queue's statements of db/queries/jobs.sql.
pub mod Rows
pub mod Queue
pub mod Runner
pub mod Sound
pub mod Pick
pub mod Claims
pub mod Drained
pub mod Failing
