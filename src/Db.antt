-- ===== src/Db.antt =====
-- src/db.rs: the constants and tables of the container's schema. A table is a list of rows.
-- Inode numbers and sizes are stored as i64 and used as u64: the cast is a bijection, and the
-- model keeps the unsigned number.
pub mod Rows
pub mod Names
pub mod Inodes
pub mod Blocks
pub mod Check
pub mod Migration
pub mod Container
pub mod Locking
pub mod Open
pub mod Tests
use coffer_fs.Base.{ℕ, String, Option, List, ◌^◌, ◌-◌}

abbrev pub block_size : ℕ
block_size = 131072

abbrev pub root_ino : ℕ
root_ino = 1

abbrev pub kind_dir : ℕ
kind_dir = 0

abbrev pub kind_file : ℕ
kind_file = 1

abbrev pub kind_symlink : ℕ
kind_symlink = 2

-- The columns of `inodes` but its key. Timestamps are whole seconds.
pub record Columns : Type 0 where
  pub kind : ℕ
  pub mode : ℕ
  pub uid : ℕ
  pub gid : ℕ
  pub size : ℕ
  pub atime : ℕ
  pub mtime : ℕ
  pub ctime : ℕ
  pub symlink_target : Option String

pub record Inode : Type 0 where
  pub ino : ℕ
  pub columns : Columns

pub record Dentry : Type 0 where
  pub parent : ℕ
  pub name : String
  pub ino : ℕ

pub record Block : Type 0 where
  pub ino : ℕ
  pub block_no : ℕ
  pub content : List ℕ

pub record Xattr : Type 0 where
  pub ino : ℕ
  pub name : String
  pub value : List ℕ

pub record Meta : Type 0 where
  pub key : String
  pub value : String

-- `xattrs` is `none` while a container from before 0.1.3 lacks the table; `seq` is the row of
-- `sqlite_sequence` for `inodes`, the highest number that AUTOINCREMENT has given out.
pub record Db : Type 0 where
  pub meta : List Meta
  pub inodes : List Inode
  pub dentries : List Dentry
  pub blocks : List Block
  pub xattrs : Option (List Xattr)
  pub seq : ℕ
