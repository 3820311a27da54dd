-- ===== src/Db/Migration.antt =====
-- src/db.rs: `migrate_to_v2`, from one row per name to a table of names.
pub mod Laws
pub mod Batch
pub mod Atomic
use coffer_fs.Base.{
  ℕ, suc, ◌+◌, ◌≤◌, ◌<◌, max, String, ◌≡◌, ◌≢◌, refl, ap, ◌∙◌, ◌⊎◌, inl, inr, Bool, true, false,
  not, ◌&&◌, Option, none, some, List, [], ◌∷◌, arith, Result, ok, err, ◌==◌, str_eq, if◌then◌else◌,
  All, All-map, Option-cases, Bool-cases, ==_iff,
}
use coffer_fs.Db.{Db, Meta, Columns, Inode, Dentry, Block, Xattr, root_ino}
use coffer_fs.Db.Rows.{find_name, is_name, count_names, find_inode}
use coffer_fs.Db.Names.{Unique}
use coffer_fs.Db.Inodes.{has_inode}
use coffer_fs.Db.Check.Invariant.{Inv, Named}
use coffer_fs.Db.Check.{find_inconsistencies, find_inconsistencies-zero}

-- A row of `inodes` in version 1.
pub record InodeV1 : Type 0 where
  pub ino : ℕ
  pub parent : ℕ
  pub name : String
  pub columns : Columns

-- `seq` is the row of `sqlite_sequence` for `inodes`, which may be missing.
pub record DbV1 : Type 0 where
  pub meta : List Meta
  pub inodes : List InodeV1
  pub blocks : List Block
  pub xattrs : Option (List Xattr)
  pub seq : Option ℕ

-- The primary key (parent, name) of `dentries` refuses a second row.
abbrev pub add_name : InodeV1 → List Dentry → Option ℕ → Option (List Dentry)
add_name x ds (some taken) = none
add_name x ds none = some (record { parent = x.parent; name = x.name; ino = x.ino } ∷ ds)

abbrev pub then_add : InodeV1 → Option (List Dentry) → Option (List Dentry)
then_add x none = none
then_add x (some ds) =
    if x.ino == root_ino then some ds else add_name x ds (find_name x.parent x.name ds)

-- INSERT INTO dentries … SELECT parent, name, ino FROM inodes WHERE ino != 1
unfoldable pub insert_names : List InodeV1 → Option (List Dentry)
insert_names [] = some []
insert_names (x ∷ xs) = then_add x (insert_names xs)

-- INSERT INTO inodes_v2 … SELECT … FROM inodes
unfoldable pub copy_rows : List InodeV1 → List Inode
copy_rows [] = []
copy_rows (x ∷ xs) = record { ino = x.ino; columns = x.columns } ∷ copy_rows xs

unfoldable pub highest : List InodeV1 → ℕ
highest [] = 0
highest (x ∷ xs) = max x.ino (highest xs)

-- The sequence of `inodes_v2` after its rows, and after the UPDATE that carries the old one over;
-- with no rows there is none to update.
unfoldable pub carried : List InodeV1 → Option ℕ → ℕ
unfolding highest
carried [] seq = 0
carried (x ∷ xs) none = highest (x ∷ xs)
carried (x ∷ xs) (some s) = max (highest (x ∷ xs)) s

-- UPDATE meta SET value = '2' WHERE key = 'schema_version'
unfoldable pub set_version : List Meta → List Meta
set_version [] = []
set_version (m ∷ ms) =
    let rest = set_version ms in
    if str_eq m.key "schema_version" then record m { value = "2" } ∷ rest else m ∷ rest

abbrev pub migrated : DbV1 → Option (List Dentry) → Option Db
migrated db none = none
migrated db (some ds) = some (record {
  meta = set_version db.meta;
  inodes = copy_rows db.inodes;
  dentries = ds;
  blocks = db.blocks;
  xattrs = db.xattrs;
  seq = carried db.inodes db.seq;
})

-- What the batch comes to where no statement is interrupted, `none` where one is refused: it is one
-- transaction, and Batch has its statements one by one.
unfoldable pub migrate_to_v2 : DbV1 → Option Db
unfolding insert_names copy_rows carried set_version
migrate_to_v2 db = migrated db (insert_names db.inodes)
