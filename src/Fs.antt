-- ===== src/Fs.antt =====
-- src/fs.rs: the FUSE filesystem over the tables.
pub mod Schema
pub mod Inodes
pub mod Attr
pub mod Steps
pub mod Content
pub mod Entries
pub mod Listing
pub mod Xattrs
pub mod Serve
pub mod Consistency
pub mod Atomicity
pub mod ReadOnly
pub mod Tests
