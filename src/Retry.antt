-- ===== src/Retry.antt =====
-- Retries: the policy of a queue, and the settings-based schedule.
pub mod Policy
pub mod Schedule
pub mod Rules
