-- ===== src/Fs/Content.antt =====
-- src/fs.rs: `read`, `write` and `setattr`.
pub mod Loops
pub mod Calls
pub mod Chunks
pub mod Reading
pub mod Writing
pub mod Effects
pub mod Succeeding
pub mod Lost
pub mod Truncating
pub mod RoundTrip
pub mod Refinement
