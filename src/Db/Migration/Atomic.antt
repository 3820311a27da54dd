-- ===== src/Db/Migration/Atomic.antt =====
-- src/db.rs: the batch of `migrate_to_v2` takes effect as a whole or not at all.
use coffer_fs.Base.{ℕ, ◌≡◌, ◌⊎◌, Bool, true, false, Option, none, some, List, [], ◌∷◌}
use coffer_fs.Db.{Db, Dentry}
use coffer_fs.Db.Migration.{DbV1, insert_names, copy_rows, carried, set_version, migrate_to_v2}
use coffer_fs.Db.Migration.Laws.{Kept}
use coffer_fs.Db.Migration.Batch.{
  Schema, rows_v2, coalesce, raised, sequence_of, create_dentries, fill_dentries, create_index,
  create_inodes_v2, copy_inodes, carry_over, drop_inodes, rename_inodes, update_version, Statement,
  change, commit, schema_v1,
}

-- The tables of a container of version 2, and no other.
pub record IsV2 (db : Db) (s : Schema) : Type 0 where
  pub meta : s.meta ≡ db.meta
  pub inodes : s.inodes ≡ rows_v2 db.inodes
  pub no_second : s.inodes_v2 ≡ none
  pub dentries : s.dentries ≡ some db.dentries
  pub blocks : s.blocks ≡ db.blocks
  pub xattrs : s.xattrs ≡ db.xattrs
  pub seq : coalesce s.seq_inodes ≡ db.seq

-- The whole migration has been done.
abbrev pub Migrated : DbV1 → Bool × Schema → Type 0
Migrated db r =
    (r.0 ≡ true) × ((db' : Db) × (migrate_to_v2 db ≡ some db') × IsV2 db' r.1 × Kept db db')

-- Nothing has been done, since a statement failed or two rows have the same name.
abbrev pub Untouched : (ℕ → Bool) → DbV1 → Bool × Schema → Type 0
Untouched fails db r =
    (r.0 ≡ false)
    × (r.1 ≡ schema_v1 db)
    × (((n : ℕ) × (fails n ≡ true)) ⊎ (insert_names db.inodes ≡ none))

-- Changes one after the other, and the statements that make them and commit.
abbrev Change : Type 0
Change = Schema → Option Schema

unfoldable applied : List Change → Schema → Option Schema
applied [] w = some w
applied (f ∷ fs) w = let rest = applied fs in elim (f w) [ none ↦ none | some v ↦ rest v ]

unfoldable committed : List Change → List Statement
committed [] = commit ∷ []
committed (f ∷ fs) = change f ∷ committed fs

module _ (fails : ℕ → Bool) where
  abbrev Fault : Type 0
  Fault = (n : ℕ) × (fails n ≡ true)

  -- All changes are in the file, or none.
  abbrev AllOrNone : Schema → Option Schema → Bool × Schema → Type 0
  AllOrNone file o r =
      ((w : Schema) × (o ≡ some w) × (r.0 ≡ true) × (r.1 ≡ w))
      ⊎ ((r.0 ≡ false) × (r.1 ≡ file) × (Fault ⊎ (o ≡ none)))

-- The changes of the migration.
abbrev changes : List Change
changes =
    create_dentries ∷ fill_dentries ∷ create_index ∷ create_inodes_v2 ∷ copy_inodes ∷ carry_over
    ∷ drop_inodes ∷ rename_inodes ∷ update_version ∷ []

module _ (db : DbV1) where
  abbrev migrated_with : List Dentry → Db
  migrated_with ds = record {
    meta = set_version db.meta;
    inodes = copy_rows db.inodes;
    dentries = ds;
    blocks = db.blocks;
    xattrs = db.xattrs;
    seq = carried db.inodes db.seq;
  }

  abbrev schema_with : List Dentry → Schema
  schema_with ds = record {
    meta = set_version db.meta;
    inodes = rows_v2 (copy_rows db.inodes);
    inodes_v2 = none;
    dentries = some ds;
    blocks = db.blocks;
    xattrs = db.xattrs;
    seq_inodes = raised db.seq (sequence_of db.inodes);
    seq_inodes_v2 = none;
  }

  abbrev schema_of : Option (List Dentry) → Option Schema
  schema_of none = none
  schema_of (some ds) = some (schema_with ds)
