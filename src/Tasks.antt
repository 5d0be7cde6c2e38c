-- ===== src/Tasks.antt =====
-- redash/tasks/queries.py: the tracking, submission, execution and clean-up of query tasks.
pub mod Tracker
pub mod Status
pub mod Enqueue
pub mod Executor
pub mod Cleanup
pub mod Refresh
pub mod System
