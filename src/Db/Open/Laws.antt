-- ===== src/Db/Open/Laws.antt =====
-- src/db.rs: what opening a container makes of its tables.
use coffer_fs.Base.{
  String, ◌≡◌, refl, ap, ◌∙◌, sym, subst, Bool, true, false, Option, none, some, List, [], ◌∷◌,
  Result, ok, err, arith, str_eq, eq_iff, inl, inr, ◌⊎◌, Bool-cases, Option-cases,
}
use mathlib.Core.Option.{some-injective}
use coffer_fs.Db.{Db, Dentry, Meta, Xattr}
use coffer_fs.Db.Container.{find_meta, add_xattrs}
use coffer_fs.Db.Migration.{DbV1, migrated, insert_names, migrate_to_v2, set_version}
use coffer_fs.Db.Migration.Laws.{Kept, migrate_to_v2_lem}
use coffer_fs.Sql.{SqlError}
use coffer_fs.Db.Open.{
  Tables, old, new, OpenError, Answers, schema_version_1, version_of, add_xattrs_old, with_xattrs,
  Opening, and_then, ran, first_answer, read_version, checked, lock_mode, check_version,
  migrated_to, migrate, upgrade, open_db_with,
}

-- A connection that is there, with these tables.
abbrev pub opened_with : Tables → Opening
opened_with t = (ok tt, t)

and_then-ok :
    (o : Opening) (k : Tables → Opening) (t' : Tables)
    → and_then o k ≡ opened_with t'
    → (t : Tables) × (o ≡ opened_with t) × (k t ≡ opened_with t')
and_then-ok (err e, t) k t' h = cc
and_then-ok (ok u, t) k t' h = (t, refl, h)

ran-ok :
    (o : Option SqlError) (f : Tables → Tables) (t t' : Tables)
    → ran o f t ≡ opened_with t'
    → t' ≡ f t
ran-ok (some e) f t t' h = cc
ran-ok none f t t' h = cc

-- The migration writes the new version.
find_meta-set_version :
    (ms : List Meta) (v : String)
    → find_meta "schema_version" ms ≡ some v
    → find_meta "schema_version" (set_version ms) ≡ some "2"
unfolding find_meta set_version
find_meta-set_version [] v h = cc
find_meta-set_version (m ∷ ms) v h = elim (Bool-cases (str_eq m.key "schema_version")) [
  | inl e ↦ rw (e, e) refl
  | inr e ↦ rw (e, e) (find_meta-set_version ms v (rw e at h))
]

version_of-migrate_to_v2 :
    (db : DbV1) (db' : Db) (v : String)
    → migrate_to_v2 db ≡ some db'
    → version_of (old db) ≡ some v
    → version_of (new db') ≡ some "2"
unfolding migrate_to_v2 version_of
version_of-migrate_to_v2 db db' v m e = written (insert_names db.inodes) m
  where
    written :
        (o : Option (List Dentry))
        → migrated db o ≡ some db'
        → find_meta "schema_version" db'.meta ≡ some "2"
    written none m = cc
    written (some ds) m =
        ap (λ x. find_meta "schema_version" x.meta) (sym (some-injective _ _ m))
        ∙ find_meta-set_version db.meta v e

version_of-with_xattrs : (t : Tables) → version_of (with_xattrs t) ≡ version_of t
unfolding version_of add_xattrs add_xattrs_old
version_of-with_xattrs (old db) = elim (Option-cases db.xattrs) [
  | inl e ↦ rw (e) refl
  | inr (rows, e) ↦ rw (e) refl
]
version_of-with_xattrs (new db) = elim (Option-cases db.xattrs) [
  | inl e ↦ rw (e) refl
  | inr (rows, e) ↦ rw (e) refl
]

read_version-ok :
    (f : Option SqlError) (right : Bool) (o : Option String) (v : String)
    → first_answer f right o ≡ ok v
    → o ≡ some v
read_version-ok (some e) right o v h = ground (arith, h)
read_version-ok none false o v h = cc
read_version-ok none true none v h = cc
read_version-ok none true (some w) v h = cc

-- The tables are a whole migration of others.
abbrev pub MigratedTo : Tables → Tables → Type 0
MigratedTo t t' =
    (db : DbV1) × (db' : Db) × (t ≡ old db)
    × (migrate_to_v2 db ≡ some db')
    × Kept db db'
    × (t' ≡ new db')

migrate-MigratedTo :
    (m : Option SqlError) (t t' : Tables) → migrate m t ≡ opened_with t' → MigratedTo t t'
migrate-MigratedTo (some e) t t' h = cc
migrate-MigratedTo none (new db) t' h = cc
migrate-MigratedTo none (old db) t' h = made (migrate_to_v2 db) refl h
  where
    made :
        (o : Option Db)
        → migrate_to_v2 db ≡ o
        → migrated_to db o ≡ opened_with t'
        → MigratedTo (old db) t'
    made none e k = cc
    made (some db') e k = (db, db', refl, e, migrate_to_v2_lem db db' e, cc)

-- The rows of a table of attributes that may be there.
abbrev pub rows_of : Option (List Xattr) → List Xattr
rows_of none = []
rows_of (some rows) = rows

-- The same tables, with a table of attributes that has the rows that there were.
abbrev pub Attributed : Tables → Tables → Type 0
Attributed (old db) t' = t' ≡ old (record db { xattrs = some (rows_of db.xattrs) })
Attributed (new db) t' = t' ≡ new (record db { xattrs = some (rows_of db.xattrs) })

with_xattrs-Attributed : (t : Tables) → Attributed t (with_xattrs t)
unfolding add_xattrs add_xattrs_old
with_xattrs-Attributed (old db) = elim (Option-cases db.xattrs) [
  | inl e ↦ rw (e) refl
  | inr (rows, e) ↦ rw (e) refl
]
with_xattrs-Attributed (new db) = elim (Option-cases db.xattrs) [
  | inl e ↦ rw (e) refl
  | inr (rows, e) ↦ rw (e) refl
]

attributed : (t u : Tables) → t ≡ with_xattrs u → Attributed u t
attributed t u y = subst (Attributed u) (sym y) (with_xattrs-Attributed u)

-- What a writable connection stands on: tables that said version 2, or that were migrated whole; then
-- with a table of attributes.
abbrev pub UpTo : Tables → Tables → Type 0
UpTo t t' =
    (version_of t' ≡ some "2")
    × (((version_of t ≡ some "2") × Attributed t t')
        ⊎ ((u : Tables) × MigratedTo t u × Attributed u t'))

upgrade-UpTo :
    (a : Answers) (t t1 t2 : Tables) (v : String) (b : Bool)
    → version_of t ≡ some v
    → (b ≡ false → v ≡ "2")
    → upgrade a b t ≡ opened_with t1
    → t2 ≡ with_xattrs t1
    → UpTo t t2
unfolding version_of
upgrade-UpTo a t t1 t2 v true e n h x =
    let (db, db', et, m, k, e1) = migrate-MigratedTo a.migration t t1 h in
    let same = ap version_of (sym et) ∙ e in
    (
      ap version_of x
          ∙ version_of-with_xattrs t1
          ∙ ap version_of e1
          ∙ version_of-migrate_to_v2 db db' v m same,
      inr (t1, (db, db', et, m, k, e1), attributed t2 t1 x),
    )
upgrade-UpTo a t t1 t2 v false e n h x =
    let same : t ≡ t1 = cc in
    (
      ap version_of x ∙ version_of-with_xattrs t1 ∙ ap version_of (sym same) ∙ e ∙ ap some (n refl),
      inl (e ∙ ap some (n refl), subst (λ u. Attributed u t2) (sym same) (attributed t2 t1 x)),
    )

versions :
    (schema : String)
    → check_version schema ≡ ok tt
    → str_eq schema schema_version_1 ≡ false
    → schema ≡ "2"
versions schema h n = (eq_iff schema "2").0 (ground (arith, h, n))

lock_mode-ok :
    (a : Answers) (exclusive : Bool) (t t' : Tables)
    → lock_mode a exclusive t ≡ opened_with t'
    → t' ≡ t
lock_mode-ok a true t t' h = ran-ok a.locking_mode (λ x. x) t t' h
lock_mode-ok a false t t' h = cc

checked-UpTo :
    (a : Answers) (t t' : Tables) (r : Result OpenError String)
    → read_version a t ≡ r
    → checked a false t r ≡ opened_with t'
    → UpTo t t'
checked-UpTo a t t' (err e) k h = cc
checked-UpTo a t t' (ok schema) k h =
    let (t1, h1, k1) = and_then-ok _ _ t' h in
    let (t2, h2, k2) = and_then-ok (check_version schema, t) _ t1 h1 in
    let (t3, h3, k3) = and_then-ok _ _ t1 k2 in
    let (t4, h4, k4) = and_then-ok _ _ t3 h3 in
    let known : check_version schema ≡ ok tt = ap (λ (o : Opening). o.0) h2 in
    let e2 : t2 ≡ t = sym (ap (λ (o : Opening). o.1) h2) in
    let e4 : t4 ≡ t = ran-ok a.journal_mode (λ x. x) t2 t4 h4 ∙ e2 in
    let e1 : t' ≡ with_xattrs t3 =
      ran-ok a.cache_size (λ x. x) t1 t' k1 ∙ ran-ok a.xattrs_schema with_xattrs t3 t1 k3 in
    upgrade-UpTo a t t3 t' schema (str_eq schema schema_version_1)
      (read_version-ok a.first_read a.password_right (version_of t) schema k)
      (versions schema known) (ap (upgrade a (str_eq schema schema_version_1)) (sym e4) ∙ k4) e1

-- A container that is opened for writing is at version 2 afterwards. Either its tables said so before,
-- or they were of version 1 and `migrate_to_v2` has run as a whole, so that they are consistent and
-- have kept names, rows and contents. There is then a table of attributes, with the rows that it had
-- before or with none where there was no such table, and no other table has changed further.
pub open_db_with-UpTo :
    (a : Answers) (exclusive : Bool) (t t' : Tables)
    → open_db_with a false exclusive t ≡ opened_with t'
    → UpTo t t'
unfolding open_db_with
open_db_with-UpTo a exclusive t t' h = elim (Bool-cases a.is_file) [
  | inl f ↦
      (let (t3, h3, k3) = and_then-ok _ _ t' (rw f at h) in
        let (t2, h2, k2) = and_then-ok _ _ t3 h3 in
        let (t1, h1, k1) = and_then-ok (a.opened, t) _ t2 h2 in
        let e1 : t1 ≡ t = sym (ap (λ (o : Opening). o.1) h1) in
        let e3 : t3 ≡ t =
          lock_mode-ok a exclusive t2 t3 k2 ∙ ran-ok a.keyed (λ x. x) t1 t2 k1 ∙ e1 in
        subst (λ x. UpTo x t') e3 (checked-UpTo a t3 t' (read_version a t3) refl k3))
  | inr f ↦ absurd (ground (arith, (rw f at h)))
]
