-- ===== src/Db/Container.antt =====
-- src/db.rs: a new container, its settings in `meta`, and the PRAGMA that carries the password.
-- The file and its encryption are SQLCipher's: what is modelled is what the statements leave.
pub mod Decimal
pub mod Key
pub mod Laws
use coffer_fs.Base.{
  ℕ, ◌+◌, max, String, Bool, true, false, Option, none, some, List, [], ◌∷◌, Result, ok, err,
  str_eq, if◌then◌else◌,
}
use coffer_fs.Db.{Db, Meta, Columns, Inode, block_size, root_ino, kind_dir}
use coffer_fs.Db.Rows.{find_inode}
use coffer_fs.Db.Container.Decimal.{to_string, parse_u64}
use coffer_fs.Sql.{
  SqlError, constraint, Run, pure, ◌>>=◌, ◌>>◌, attempt, or_zero, execute, query, statement,
  now_secs,
}

-- SELECT value FROM meta WHERE key=…
unfoldable pub find_meta : String → List Meta → Option String
find_meta key [] = none
find_meta key (m ∷ ms) = if str_eq m.key key then some m.value else find_meta key ms

abbrev filed : Meta → Db → Option String → Result SqlError (Unit {0} × Db)
filed m db none = ok (tt, record db { meta = m ∷ db.meta })
filed m db (some v) = err constraint

-- INSERT INTO meta (key, value): the key is the primary key.
unfoldable pub insert_meta : String → String → Db → Result SqlError (Unit {0} × Db)
unfolding find_meta
insert_meta key value db = filed (record { key = key; value = value }) db (find_meta key db.meta)

-- XATTRS_SCHEMA: CREATE TABLE IF NOT EXISTS
unfoldable pub add_xattrs : Db → Db
add_xattrs db = elim db.xattrs [ none ↦ record db { xattrs = some [] } | some rows ↦ db ]

unfoldable pub has_xattrs : Db → Bool
has_xattrs db = elim db.xattrs [ none ↦ false | some rows ↦ true ]

-- The tables are there and empty after SCHEMA; `xattrs` comes with XATTRS_SCHEMA.
abbrev pub empty_db : Db
empty_db = record { meta = []; inodes = []; dentries = []; blocks = []; xattrs = none; seq = 0 }

-- S_IFDIR | 0o700
abbrev pub root_columns : ℕ → ℕ → ℕ → Columns
root_columns uid gid now = record {
  kind = kind_dir;
  mode = 16832;
  uid = uid;
  gid = gid;
  size = 0;
  atime = now;
  mtime = now;
  ctime = now;
  symlink_target = none;
}

abbrev rooted : Columns → Db → Option Columns → Result SqlError (Unit {0} × Db)
rooted cols db none = ok (
  tt,
  record db {
    inodes = record { ino = root_ino; columns = cols } ∷ db.inodes;
    seq = max root_ino db.seq;
  },
)
rooted cols db (some taken) = err constraint

-- INSERT INTO inodes with the number of the root
unfoldable pub insert_root : Columns → Db → Result SqlError (Unit {0} × Db)
insert_root cols db = rooted cols db (find_inode root_ino db.inodes)

abbrev pub schema_version_2 : String
schema_version_2 = "2"

-- `create_container` from the opened file on; each `?` ends it.
unfoldable pub create_container : ℕ → ℕ → ℕ → Run SqlError (Unit {0})
unfolding insert_meta add_xattrs insert_root
create_container uid gid max_size = do
  execute (λ db. db)
  execute add_xattrs
  now ← now_secs
  statement (insert_root (root_columns uid gid now))
  statement (insert_meta "schema_version" schema_version_2)
  statement (insert_meta "created_at" (to_string now))
  statement (insert_meta "block_size" (to_string block_size))
  statement (insert_meta "max_size" (to_string max_size))

-- `.ok()`
abbrev pub found_or_none : Result SqlError (Option String) → Option String
found_or_none (ok v) = v
found_or_none (err e) = none

abbrev pub parsed : Option String → Option ℕ
parsed none = none
parsed (some s) = parse_u64 s

unfoldable pub schema_version : Run SqlError (Option String)
schema_version = do
  found ← attempt (query (λ db. find_meta "schema_version" db.meta))
  pure (found_or_none found)

unfoldable pub read_max_size : Run SqlError ℕ
read_max_size = do
  found ← attempt (query (λ db. find_meta "max_size" db.meta))
  pure (or_zero (parsed (found_or_none found)))
