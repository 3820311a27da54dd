-- ===== src/Db/Open.antt =====
-- src/db.rs: `open_db` and `open_db_for_mount`, with what they do to the tables of a container.
pub mod Laws
use coffer_fs.Base.{
  String, Bool, true, false, not, ◌&&◌, Option, none, some, List, [], Result, ok, err, str_eq,
  if◌then◌else◌,
}
use coffer_fs.Db.{Db, Meta}
use coffer_fs.Db.Container.{find_meta, add_xattrs, schema_version_2}
use coffer_fs.Db.Migration.{DbV1, migrate_to_v2}
use coffer_fs.Sql.{SqlError, busy, constraint, failure}

-- The tables in a file: those of version 1, or of version 2. Which one it is, the code only knows
-- from the row `schema_version`.
pub data Tables : Type 0 where
  old : DbV1 → Tables
  new : Db → Tables

pub data OpenError : Type 0 where
  not_found mounted wrong_password : OpenError
  newer : String → OpenError
  sql : SqlError → OpenError
  system : String → OpenError

-- How each call ends, and whether the password is right. A statement that fails changes nothing, nor
-- does the migration: Db/Migration/Batch has its statements one by one.
pub record Answers : Type 0 where
  pub is_file : Bool
  pub opened : Result OpenError (Unit {0})
  pub keyed : Option SqlError
  pub locking_mode : Option SqlError
  pub password_right : Bool
  pub first_read : Option SqlError
  pub journal_mode : Option SqlError
  pub migration : Option SqlError
  pub xattrs_schema : Option SqlError
  pub cache_size : Option SqlError

abbrev pub schema_version_1 : String
schema_version_1 = "1"

abbrev pub meta_of : Tables → List Meta
meta_of (old db) = db.meta
meta_of (new db) = db.meta

unfoldable pub version_of : Tables → Option String
unfolding find_meta
version_of t = find_meta "schema_version" (meta_of t)

-- CREATE TABLE IF NOT EXISTS xattrs, on either version.
unfoldable pub add_xattrs_old : DbV1 → DbV1
add_xattrs_old db = elim db.xattrs [ none ↦ record db { xattrs = some [] } | some rows ↦ db ]

abbrev pub with_xattrs : Tables → Tables
with_xattrs (old db) = old (add_xattrs_old db)
with_xattrs (new db) = new (add_xattrs db)

-- What a run leaves in the file, with its result.
abbrev pub Opening : Type 0
Opening = Result OpenError (Unit {0}) × Tables

abbrev pub and_then : Opening → (Tables → Opening) → Opening
and_then (err e, t) k = (err e, t)
and_then (ok u, t) k = k t

abbrev pub ran : Option SqlError → (Tables → Tables) → Tables → Opening
ran (some e) f t = (err (sql e), t)
ran none f t = (ok tt, f t)

-- `DatabaseBusy` is a mount that holds the container; every other failure counts as a wrong password.
abbrev pub first_answer : Option SqlError → Bool → Option String → Result OpenError String
first_answer (some busy) right v = err mounted
first_answer (some e) right v = err wrong_password
first_answer none false v = err wrong_password
first_answer none true none = err wrong_password
first_answer none true (some v) = ok v

abbrev pub read_version : Answers → Tables → Result OpenError String
read_version a t = first_answer a.first_read a.password_right (version_of t)

abbrev pub check_version : String → Result OpenError (Unit {0})
check_version schema =
    if not (str_eq schema schema_version_2) && not (str_eq schema schema_version_1)
    then err (newer schema)
    else ok tt

abbrev pub migrated_to : DbV1 → Option Db → Opening
migrated_to db none = (err (sql constraint), old db)
migrated_to db (some db') = (ok tt, new db')

abbrev pub migrate : Option SqlError → Tables → Opening
migrate (some e) t = (err (sql e), t)
migrate none (new db) = (err (sql failure), new db)
migrate none (old db) = migrated_to db (migrate_to_v2 db)

abbrev pub upgrade : Answers → Bool → Tables → Opening
upgrade a true t = migrate a.migration t
upgrade a false t = (ok tt, t)

-- What only a writable connection does.
abbrev pub prepare : Answers → Bool → String → Tables → Opening
prepare a true schema t = (ok tt, t)
prepare a false schema t =
    and_then (and_then (ran a.journal_mode (λ x. x) t) (upgrade a (str_eq schema schema_version_1)))
      (ran a.xattrs_schema with_xattrs)

abbrev pub checked : Answers → Bool → Tables → Result OpenError String → Opening
checked a readonly t (err e) = (err e, t)
checked a readonly t (ok schema) =
    and_then (and_then (check_version schema, t) (prepare a readonly schema))
      (ran a.cache_size (λ x. x))

abbrev pub lock_mode : Answers → Bool → Tables → Opening
lock_mode a false t = (ok tt, t)
lock_mode a true t = ran a.locking_mode (λ x. x) t

unfoldable pub open_db_with : Answers → Bool → Bool → Tables → Opening
unfolding version_of add_xattrs add_xattrs_old migrate_to_v2
open_db_with a readonly exclusive t =
    if not a.is_file
    then (err not_found, t)
    else and_then (and_then (and_then (a.opened, t) (ran a.keyed (λ x. x))) (lock_mode a exclusive))
        (λ x. checked a readonly x (read_version a x))

unfoldable pub open_db : Answers → Bool → Tables → Opening
unfolding open_db_with
open_db a readonly t = open_db_with a readonly false t

unfoldable pub open_db_for_mount : Answers → Bool → Bool → Tables → Opening
unfolding open_db_with
open_db_for_mount a readonly exclusive t = open_db_with a readonly (exclusive && not readonly) t
