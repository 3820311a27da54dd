-- ===== src/Db/Migration/Batch.antt =====
-- src/db.rs: the statements of `migrate_to_v2` one by one, any of which may fail, or be the last before
-- a crash.
use coffer_fs.Base.{ℕ, suc, max, Bool, true, false, Option, none, some, List, [], ◌∷◌}
use coffer_fs.Db.{Meta, Inode, Dentry, Block, Xattr}
use coffer_fs.Db.Migration.{InodeV1, DbV1, insert_names, copy_rows, highest, set_version}

-- The table `inodes`, of either version, or dropped.
pub data InodesTable : Type 0 where
  no_table : InodesTable
  rows_v1 : List InodeV1 → InodesTable
  rows_v2 : List Inode → InodesTable

-- The tables at any moment of the migration, with the two rows of `sqlite_sequence`.
pub record Schema : Type 0 where
  pub meta : List Meta
  pub inodes : InodesTable
  pub inodes_v2 : Option (List Inode)
  pub dentries : Option (List Dentry)
  pub blocks : List Block
  pub xattrs : Option (List Xattr)
  pub seq_inodes : Option ℕ
  pub seq_inodes_v2 : Option ℕ

abbrev where_absent : {A : Type 0} → Option A → Schema → Option Schema
where_absent none s = some s
where_absent (some t) s = none

-- CREATE TABLE dentries
abbrev pub create_dentries : Schema → Option Schema
create_dentries s = where_absent s.dentries (record s { dentries = some [] })

abbrev pub into_dentries : Schema → Option (List Dentry) → Option Schema
into_dentries s none = none
into_dentries s (some ds) = some (record s { dentries = some ds })

-- INSERT INTO dentries … SELECT …, into the table that is still empty.
abbrev fill_from : Schema → Option (List Dentry) → InodesTable → Option Schema
fill_from s (some []) (rows_v1 xs) = into_dentries s (insert_names xs)
fill_from s _ _ = none

abbrev pub fill_dentries : Schema → Option Schema
fill_dentries s = fill_from s s.dentries s.inodes

-- CREATE INDEX idx_dentries_ino: an index holds no rows of its own.
abbrev pub create_index : Schema → Option Schema
create_index s = some s

-- CREATE TABLE inodes_v2
abbrev pub create_inodes_v2 : Schema → Option Schema
create_inodes_v2 s = where_absent s.inodes_v2 (record s { inodes_v2 = some [] })

-- AUTOINCREMENT after rows with these numbers: with no row there is no row in `sqlite_sequence`.
abbrev pub sequence_of : List InodeV1 → Option ℕ
sequence_of [] = none
sequence_of (x ∷ xs) = some (highest (x ∷ xs))

-- INSERT INTO inodes_v2 … SELECT …, into the table that is still empty.
abbrev copy_from : Schema → Option (List Inode) → InodesTable → Option Schema
copy_from s (some []) (rows_v1 xs) =
    some (record s { inodes_v2 = some (copy_rows xs); seq_inodes_v2 = sequence_of xs })
copy_from s _ _ = none

abbrev pub copy_inodes : Schema → Option Schema
copy_inodes s = copy_from s s.inodes_v2 s.inodes

-- COALESCE(…, 0)
abbrev pub coalesce : Option ℕ → ℕ
coalesce none = 0
coalesce (some n) = n

abbrev pub raised : Option ℕ → Option ℕ → Option ℕ
raised old none = none
raised old (some n) = some (max n (coalesce old))

-- UPDATE sqlite_sequence SET seq = max(seq, …) WHERE name = 'inodes_v2'
abbrev pub carry_over : Schema → Option Schema
carry_over s = some (record s { seq_inodes_v2 = raised s.seq_inodes s.seq_inodes_v2 })

abbrev drop_from : Schema → InodesTable → Option Schema
drop_from s no_table = none
drop_from s _ = some (record s { inodes = no_table; seq_inodes = none })

-- DROP TABLE inodes, with its row of `sqlite_sequence`.
abbrev pub drop_inodes : Schema → Option Schema
drop_inodes s = drop_from s s.inodes

abbrev rename_from : Schema → InodesTable → Option (List Inode) → Option Schema
rename_from s no_table (some rows) = some (record s {
  inodes = rows_v2 rows;
  inodes_v2 = none;
  seq_inodes = s.seq_inodes_v2;
  seq_inodes_v2 = none;
})
rename_from s _ _ = none

-- ALTER TABLE inodes_v2 RENAME TO inodes, which renames the row of `sqlite_sequence` too.
abbrev pub rename_inodes : Schema → Option Schema
rename_inodes s = rename_from s s.inodes s.inodes_v2

-- UPDATE meta SET value = '2' WHERE key = 'schema_version'
abbrev pub update_version : Schema → Option Schema
update_version s = some (record s { meta = set_version s.meta })

pub data Statement : Type 0 where
  begin commit : Statement
  change : (Schema → Option Schema) → Statement

-- What is in the file, and what an open transaction has made of it.
abbrev pub Store : Type 0
Store = Schema × Option Schema

abbrev pub changed : Store → Option Schema → Option Store
changed (file, tx) none = none
changed (file, none) (some s) = some (s, none)
changed (file, some w) (some s) = some (file, some s)

abbrev seen : Store → Schema
seen (file, none) = file
seen (file, some w) = w

-- A statement outside a transaction is one of its own.
abbrev pub run_statement : Statement → Store → Option Store
run_statement begin (file, none) = some (file, some file)
run_statement begin (file, some w) = none
run_statement commit (file, none) = none
run_statement commit (file, some w) = some (w, none)
run_statement (change f) st = changed st (f (seen st))

abbrev pub continued : Store → (Store → Bool × Schema) → Bool → Option Store → Bool × Schema
continued st rest true next = (false, st.0)
continued st rest false none = (false, st.0)
continued st rest false (some st') = rest st'

-- `execute_batch` stops at the first statement that fails: one that is refused, or one of `fails`. The
-- connection is closed then, and an open transaction is rolled back: the file alone is left.
unfoldable pub run_batch : (ℕ → Bool) → ℕ → List Statement → Store → Bool × Schema
run_batch fails n [] st = (true, st.0)
run_batch fails n (s ∷ ss) st =
    let rest = run_batch fails (suc n) ss in continued st rest (fails n) (run_statement s st)

abbrev pub migration : List Statement
migration =
    begin
    ∷ change create_dentries
    ∷ change fill_dentries
    ∷ change create_index
    ∷ change create_inodes_v2
    ∷ change copy_inodes
    ∷ change carry_over
    ∷ change drop_inodes
    ∷ change rename_inodes
    ∷ change update_version
    ∷ commit
    ∷ []

-- The tables of a container of version 1.
abbrev pub schema_v1 : DbV1 → Schema
schema_v1 db = record {
  meta = db.meta;
  inodes = rows_v1 db.inodes;
  inodes_v2 = none;
  dentries = none;
  blocks = db.blocks;
  xattrs = db.xattrs;
  seq_inodes = db.seq;
  seq_inodes_v2 = none;
}

-- Whether the batch succeeds, and what is then in the file.
unfoldable pub run_migration : (ℕ → Bool) → DbV1 → Bool × Schema
unfolding run_batch insert_names copy_rows highest set_version
run_migration fails db = run_batch fails 0 migration (schema_v1 db, none)
