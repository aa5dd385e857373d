-- ===== src/Tasks/Attempts.antt =====
-- tasks/reducer/attempts.rs: the start, the observation, the resumption and the retry of an attempt.
pub mod Evidence
pub mod Start
pub mod Observe
pub mod Starts
pub mod Progress
