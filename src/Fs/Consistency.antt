-- ===== src/Fs/Consistency.antt =====
-- Whatever the requests and the faults, the tables stay consistent.
pub mod Frame
pub mod Names
pub mod Guards
pub mod Entries
pub mod Rest
pub mod Session
