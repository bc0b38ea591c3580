-- ===== src/Recovery.antt =====
-- core/recovery.py: one recovery run. The controller reads the persisted incident from DataHub,
-- appends this run to its history, decides, and writes the decision back; when it resumes, every
-- controlled dataset is released.
pub mod History
pub mod Checks
pub mod Release
pub mod Evaluate
pub mod Gate
pub mod Streak
pub mod Released
