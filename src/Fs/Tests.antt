-- ===== src/Fs/Tests.antt =====
-- A small container, and the theorems on requests of src/fs.rs at concrete ones.
pub mod Requests
pub mod Links
mod Files
use coffer_fs.Base.{
  zero, suc, ℕ, ◌+◌, ◌==◌, if◌then◌else◌, ◌≡◌, refl, Bool, true, false, Option, none, some, List,
  [], ◌∷◌,
}
use coffer_fs.Db.{Db, Columns, kind_dir, kind_file}
use coffer_fs.Sql.{SqlError, disk_full, Conn}
use coffer_fs.Fs.Schema.{CofferFs, OsStr, InodeRow, utf8}
use coffer_fs.Fs.Entries.{s_ifdir, s_ifreg}

abbrev pub root_dir : Columns
root_dir = record {
  kind = kind_dir;
  mode = s_ifdir + 493;
  uid = 1000;
  gid = 1000;
  size = 0;
  atime = 5;
  mtime = 5;
  ctime = 5;
  symlink_target = none;
}

abbrev pub file_a : Columns
file_a = record {
  kind = kind_file;
  mode = s_ifreg + 420;
  uid = 1000;
  gid = 1000;
  size = 3;
  atime = 6;
  mtime = 6;
  ctime = 6;
  symlink_target = none;
}

-- The root and a file `a` of three bytes.
abbrev pub small_db : Db
small_db = record {
  meta = [];
  inodes = record { ino = 1; columns = root_dir } ∷ record { ino = 2; columns = file_a } ∷ [];
  dentries = record { parent = 1; name = "a"; ino = 2 } ∷ [];
  blocks = record { ino = 2; block_no = 0; content = 7 ∷ 8 ∷ 9 ∷ [] } ∷ [];
  xattrs = some [];
  seq = 2;
}

abbrev pub mount : CofferFs
mount = record { max_size = 1000000; uid = 1000; gid = 1000; read_only = false; has_xattrs = true }

abbrev pub mount_read_only : CofferFs
mount_read_only = record mount { read_only = true }

abbrev pub conn : Conn
conn = record { db = small_db; last_activity = 0; clock = λ _. some 10; faults = λ _. none }

-- The statement after the first two fails.
abbrev third_fails : ℕ → Option SqlError
third_fails n = if n == 2 then some disk_full else none

abbrev pub conn_full : Conn
conn_full = record conn { faults = third_fails }

-- Every statement but the first fails.
abbrev broken : ℕ → Option SqlError
broken zero = none
broken (suc n) = some disk_full

abbrev pub conn_broken : Conn
conn_broken = record conn { faults = broken }

abbrev pub row_a : InodeRow
row_a = record { columns = file_a; nlink = 1 }
