-- ===== src/Db/Migration/Laws.antt =====
-- src/db.rs: `migrate_to_v2`, what the migration keeps.
use coffer_fs.Base.{
  ℕ, ◌≤◌, max, String, ◌≡◌, subst, ◌⊎◌, refl, inl, inr, true, false, not, ◌&&◌, Option, none, some,
  List, [], ◌∷◌, arith, ◌==◌, str_eq, if◌then◌else◌, All, All-map, Bool-cases, ==_iff,
}
use coffer_fs.Db.{Db, Columns, Inode, Dentry, root_ino}
use coffer_fs.Db.Rows.{find_name, is_name, count_names, find_inode}
use mathlib.Core.Option.{some-injective}
use coffer_fs.Db.Names.{Unique}
use coffer_fs.Db.Inodes.{has_inode}
use coffer_fs.Db.Check.Invariant.{Inv, Named}
use coffer_fs.Db.Check.{find_inconsistencies, find_inconsistencies-zero}
use coffer_fs.Db.Migration.{
  InodeV1, DbV1, add_name, then_add, insert_names, copy_rows, highest, carried, migrated,
  migrate_to_v2,
}

-- Every row of the old table but the root has its one name.
abbrev Joined : List InodeV1 → List Dentry → Type 0
Joined xs ds =
    Unique ds
    × All (λ d. has_inode d.ino (copy_rows xs) ≡ true) ds
    × All (λ x. Named root_ino ds x.ino) (copy_rows xs)

grown :
    (x : InodeV1) (xs : List InodeV1) (ds : List Dentry)
    → All (λ d. has_inode d.ino (copy_rows xs) ≡ true) ds
    → All (λ d. has_inode d.ino (copy_rows (x ∷ xs)) ≡ true) ds
unfolding has_inode copy_rows
grown x xs ds h =
    All-map (λ d. has_inode d.ino (copy_rows xs) ≡ true)
      (λ d. has_inode d.ino (copy_rows (x ∷ xs)) ≡ true) (λ d k. ground arith) ds h

still-Named :
    (d : Dentry) (ds : List Dentry) (xs : List Inode)
    → All (λ x. Named root_ino ds x.ino) xs
    → All (λ x. Named root_ino (d ∷ ds) x.ino) xs
unfolding count_names
still-Named d ds xs h =
    All-map (λ x. Named root_ino ds x.ino) (λ x. Named root_ino (d ∷ ds) x.ino)
      (λ x k. ground arith) xs h

module _ (x : InodeV1) (xs : List InodeV1) (ds : List Dentry) (j : Joined xs ds) where
  Joined-root : (x.ino == root_ino) ≡ true → Joined (x ∷ xs) ds
  unfolding copy_rows
  Joined-root e = (j.0, grown x xs ds j.1, (inl ((==_iff x.ino root_ino).0 e), j.2))

  Joined-name :
      find_name x.parent x.name ds ≡ none
      → Joined (x ∷ xs) (record { parent = x.parent; name = x.name; ino = x.ino } ∷ ds)
  unfolding copy_rows has_inode count_names
  Joined-name e = (
    (e, j.0),
    (ground arith, grown x xs ds j.1),
    (
      inr (inr (ground arith)),
      still-Named (record { parent = x.parent; name = x.name; ino = x.ino }) ds (copy_rows xs) j.2,
    ),
  )

abbrev OnSome : {A : Type 0} → (A → Type 0) → Option A → Type 0
OnSome P none = Unit
OnSome P (some a) = P a

add_name-Joined :
    (x : InodeV1) (xs : List InodeV1) (ds : List Dentry)
    → Joined xs ds
    → (taken : Option ℕ) → find_name x.parent x.name ds ≡ taken
    → OnSome (Joined (x ∷ xs)) (add_name x ds taken)
add_name-Joined x xs ds j none e = Joined-name x xs ds j e
add_name-Joined x xs ds j (some taken) e = tt

then_add-Joined :
    (x : InodeV1) (xs : List InodeV1) (o : Option (List Dentry))
    → OnSome (Joined xs) o
    → OnSome (Joined (x ∷ xs)) (then_add x o)
then_add-Joined x xs none j = tt
then_add-Joined x xs (some ds) j = elim (Bool-cases (x.ino == root_ino)) [
  | inl e ↦ rw e (Joined-root x xs ds j e)
  | inr e ↦ rw e (add_name-Joined x xs ds j (find_name x.parent x.name ds) refl)
]

insert_names-Joined : (xs : List InodeV1) → OnSome (Joined xs) (insert_names xs)
unfolding insert_names copy_rows
insert_names-Joined [] = (tt, tt, tt)
insert_names-Joined (x ∷ xs) = then_add-Joined x xs (insert_names xs) (insert_names-Joined xs)

highest-le : (xs : List InodeV1) → All (λ x. x.ino ≤ highest xs) (copy_rows xs)
unfolding highest copy_rows
highest-le [] = tt
highest-le (x ∷ xs) = (
  omega arith,
  All-map (λ y. y.ino ≤ highest xs) (λ y. y.ino ≤ max x.ino (highest xs)) (λ y k. omega arith)
      (copy_rows xs) (highest-le xs),
)

carried-le : (xs : List InodeV1) (seq : Option ℕ) → All (λ x. x.ino ≤ carried xs seq) (copy_rows xs)
unfolding carried copy_rows
carried-le [] seq = tt
carried-le (x ∷ xs) none = highest-le (x ∷ xs)
carried-le (x ∷ xs) (some s) =
    All-map (λ y. y.ino ≤ highest (x ∷ xs)) (λ y. y.ino ≤ max (highest (x ∷ xs)) s)
      (λ y k. omega arith) (copy_rows (x ∷ xs)) (highest-le (x ∷ xs))

migrated-Inv :
    (db : DbV1) (o : Option (List Dentry))
    → OnSome (Joined db.inodes) o
    → OnSome (Inv root_ino) (migrated db o)
migrated-Inv db none j = tt
migrated-Inv db (some ds) j = record {
  unique_names = j.0;
  no_dangling = j.1;
  all_named = j.2;
  not_reused = carried-le db.inodes db.seq;
}

migrate-Inv : (db : DbV1) → OnSome (Inv root_ino) (migrate_to_v2 db)
unfolding migrate_to_v2
migrate-Inv db = migrated-Inv db (insert_names db.inodes) (insert_names-Joined db.inodes)

-- The names and rows of version 1.
unfoldable pub find_name_v1 : ℕ → String → List InodeV1 → Option ℕ
find_name_v1 parent name [] = none
find_name_v1 parent name (x ∷ xs) =
    if not (x.ino == root_ino) && (x.parent == parent && str_eq x.name name)
    then some x.ino
    else find_name_v1 parent name xs

unfoldable pub find_row_v1 : ℕ → List InodeV1 → Option Columns
find_row_v1 i [] = none
find_row_v1 i (x ∷ xs) = if x.ino == i then some x.columns else find_row_v1 i xs

copied : (i : ℕ) (xs : List InodeV1) → find_inode i (copy_rows xs) ≡ find_row_v1 i xs
unfolding find_inode copy_rows find_row_v1
copied i [] = refl
copied i (x ∷ xs) = rw (copied i xs) refl

abbrev SameNames : List InodeV1 → List Dentry → Type 0
SameNames xs ds = (p : ℕ) (n : String) → find_name p n ds ≡ find_name_v1 p n xs

module _ (x : InodeV1) (xs : List InodeV1) where
  add_name-SameNames :
      (ds : List Dentry) (taken : Option ℕ)
      → (x.ino == root_ino) ≡ false
      → SameNames xs ds
      → OnSome (SameNames (x ∷ xs)) (add_name x ds taken)
  unfolding find_name find_name_v1 is_name
  add_name-SameNames ds none e h = λ p n. rw (e, h p n) refl
  add_name-SameNames ds (some taken) e h = tt

  then_add-SameNames :
      (o : Option (List Dentry))
      → OnSome (SameNames xs) o
      → OnSome (SameNames (x ∷ xs)) (then_add x o)
  unfolding find_name_v1
  then_add-SameNames none h = tt
  then_add-SameNames (some ds) h = elim (Bool-cases (x.ino == root_ino)) [
    | inl e ↦ rw e (λ p n. rw (e, find_name_v1) (h p n))
    | inr e ↦ rw e (add_name-SameNames ds (find_name x.parent x.name ds) e h)
  ]

insert_names-SameNames : (xs : List InodeV1) → OnSome (SameNames xs) (insert_names xs)
unfolding insert_names find_name find_name_v1
insert_names-SameNames [] = λ p n. refl
insert_names-SameNames (x ∷ xs) =
    then_add-SameNames x xs (insert_names xs) (insert_names-SameNames xs)

-- The number that AUTOINCREMENT of version 1 had come to.
abbrev pub high_water_v1 : DbV1 → ℕ
high_water_v1 db = elim db.seq [ none ↦ 0 | some s ↦ s ]

-- What a migrated container has kept.
pub record Kept (old : DbV1) (new : Db) : Type 0 where
  pub consistent : find_inconsistencies new ≡ (0, 0)
  pub names : (p : ℕ) (n : String) → find_name p n new.dentries ≡ find_name_v1 p n old.inodes
  pub rows : (i : ℕ) → find_inode i new.inodes ≡ find_row_v1 i old.inodes
  pub not_reused : All (λ x. x.ino ≤ new.seq) new.inodes
  pub high_water : (old.inodes ≡ []) ⊎ (high_water_v1 old ≤ new.seq)
  pub content : new.blocks ≡ old.blocks
  pub attributes : new.xattrs ≡ old.xattrs

carried-high :
    (xs : List InodeV1) (seq : Option ℕ)
    → (xs ≡ []) ⊎ (elim seq [ none ↦ 0 | some s ↦ s ] ≤ carried xs seq)
unfolding carried
carried-high [] seq = inl refl
carried-high (x ∷ xs) none = inr (omega arith)
carried-high (x ∷ xs) (some t) = inr (omega arith)

module _ (db : DbV1) where
  migrated-Kept :
      (o : Option (List Dentry))
      → OnSome (Joined db.inodes) o
      → OnSome (SameNames db.inodes) o
      → (new : Db) → migrated db o ≡ some new
      → Kept db new
  migrated-Kept none j n new e = cc
  migrated-Kept (some ds) j n new e = subst (Kept db) (some-injective _ _ e) (record {
    consistent = find_inconsistencies-zero _ (migrated-Inv db (some ds) j);
    names = n;
    rows = λ i. copied i db.inodes;
    not_reused = carried-le db.inodes db.seq;
    high_water = carried-high db.inodes db.seq;
    content = refl;
    attributes = refl;
  })

  -- Whatever version 1 held: where `migrate_to_v2` succeeds, the container is consistent and has the
  -- names, rows, contents and attributes that it had. Its numbers are at most the sequence, which
  -- does not fall below that of version 1, unless version 1 had no inode at all, not even the root.
  pub migrate_to_v2_lem : (new : Db) → migrate_to_v2 db ≡ some new → Kept db new
  unfolding migrate_to_v2
  migrate_to_v2_lem new e =
      migrated-Kept (insert_names db.inodes) (insert_names-Joined db.inodes)
        (insert_names-SameNames db.inodes) new e
