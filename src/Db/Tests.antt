-- ===== src/Db/Tests.antt =====
-- The theorems on src/db.rs at small containers.
use Prim.Native.String.{◌++◌}
use coffer_fs.Base.{ℕ, ◌≡◌, ◌==◌, Bool, refl, String, true, false, none, some, [], ◌∷◌, ok, arith}
use coffer_fs.Db.{Db, Columns, kind_dir, kind_file}
use coffer_fs.Db.Migration.{DbV1, copy_rows, insert_names, migrate_to_v2}
use coffer_fs.Db.Migration.Laws.{Kept, migrate_to_v2_lem}
use coffer_fs.Db.Rows.{find_name, is_name}
use coffer_fs.Db.Container.{create_container, read_max_size, empty_db}
use coffer_fs.Db.Container.Laws.{Fresh, create_container-read_max_size}
use coffer_fs.Db.Container.Key.{pragma_key_sql, literal, pragma_key_sql-literal}
use coffer_fs.Db.Container.{find_meta}
use coffer_fs.Db.Open.{Answers, old, new, open_db_with, with_xattrs}
use coffer_fs.Db.Open.Laws.{UpTo, opened_with, open_db_with-UpTo}
use coffer_fs.Db.Migration.Batch.{run_migration}
use coffer_fs.Sql.{Conn, ◌>>=◌}

abbrev dir : Columns
dir = record {
  kind = kind_dir;
  mode = 16877;
  uid = 0;
  gid = 0;
  size = 0;
  atime = 0;
  mtime = 0;
  ctime = 0;
  symlink_target = none;
}

-- Created and deleted again: the sequence stands at 12 while the highest inode is 9.
abbrev v1_container : DbV1
v1_container = record {
  meta = record { key = "schema_version"; value = "1" } ∷ [];
  inodes =
      record { ino = 1; parent = 0; name = ""; columns = dir }
      ∷ record { ino = 2; parent = 1; name = "sub"; columns = dir }
      ∷ record {
        ino = 7;
        parent = 1;
        name = "a.txt";
        columns = record dir { kind = kind_file; size = 5 };
      }
      ∷ record {
        ino = 9;
        parent = 2;
        name = "b.txt";
        columns = record dir { kind = kind_file; size = 3 };
      }
      ∷ [];
  blocks = record { ino = 7; block_no = 0; content = 104 ∷ 101 ∷ 108 ∷ 108 ∷ 111 ∷ [] } ∷ [];
  xattrs = none;
  seq = some 12;
}

abbrev v2_container : Db
v2_container = record {
  meta = record { key = "schema_version"; value = "2" } ∷ [];
  inodes = copy_rows v1_container.inodes;
  dentries =
      record { parent = 1; name = "sub"; ino = 2 }
      ∷ record { parent = 1; name = "a.txt"; ino = 7 }
      ∷ record { parent = 2; name = "b.txt"; ino = 9 }
      ∷ [];
  blocks = v1_container.blocks;
  xattrs = none;
  seq = 12;
}

migrates : migrate_to_v2 v1_container ≡ some v2_container
unfolding migrate_to_v2 find_name is_name
migrates = refl

migrate_to_v2_lem_example : Kept v1_container v2_container
migrate_to_v2_lem_example = migrate_to_v2_lem v1_container v2_container migrates

abbrev new_file : Conn
new_file = record {
  db = empty_db;
  last_activity = 0;
  clock = λ _. some 1700000000;
  faults = λ _. none;
}

create_container-read_max_size_example :
    (((create_container 1000 1000 5000000 >>= λ _. read_max_size) new_file).0 ≡ ok 5000000)
    × Fresh 1000 1000 5000000
        ((create_container 1000 1000 5000000 >>= λ _. read_max_size) new_file).1.db
create_container-read_max_size_example =
    create_container-read_max_size 1000 1000 5000000 new_file (λ n. refl) refl (omega arith)

pragma_key_sql-literal_example :
    (body : String) × (pragma_key_sql "key" "it's; DROP" ≡ ("PRAGMA " ++ "key" ++ " = '") ++ body)
    × (literal false body ≡ some ("it's; DROP", ""))
pragma_key_sql-literal_example = pragma_key_sql-literal "key" "it's; DROP"

-- A host on which all goes well, with this password.
abbrev answers : Answers
answers = record {
  is_file = true;
  opened = ok tt;
  keyed = none;
  locking_mode = none;
  password_right = true;
  first_read = none;
  journal_mode = none;
  migration = none;
  xattrs_schema = none;
  cache_size = none;
}

opens :
    open_db_with answers false true (old v1_container)
    ≡ opened_with (with_xattrs (new v2_container))
unfolding open_db_with find_meta find_name is_name
opens = refl

open_db_with-UpTo_example : UpTo (old v1_container) (with_xattrs (new v2_container))
open_db_with-UpTo_example =
    open_db_with-UpTo answers true (old v1_container) (with_xattrs (new v2_container)) opens

-- The batch is cut off in the middle.
abbrev cut_off : ℕ → Bool
cut_off n = n == 5

cut_off-fails : (run_migration cut_off v1_container).0 ≡ false
unfolding run_migration find_name is_name
cut_off-fails = refl

runs_through : (run_migration (λ n. false) v1_container).0 ≡ true
unfolding run_migration insert_names find_name is_name
runs_through = refl
