-- ===== src/Cli.antt =====
-- src/main.rs: the commands.
pub mod Mounts
pub mod Options
pub mod Sizes
pub mod Registry
pub mod Watch
pub mod Umount
pub mod Passwords
pub mod Check
pub mod Steps
pub mod Mount
pub mod Locked
mod Tests
