-- ===== src/Db/Check/Invariant.antt =====
-- What the tables `inodes` and `dentries` always satisfy, and that each statement keeps it. Between
-- two statements of one transaction a single inode, `skip`, may be without a name.
use coffer_fs.Base.{
  ℕ, suc, ◌≤◌, ◌<◌, String, ◌≡◌, refl, ◌⊎◌, inl, inr, true, not, ◌||◌, none, some, List, [], ◌∷◌,
  arith, ◌==◌, All, All-map, All-keep,
}
use coffer_fs.Db.{Db, Columns, Inode, Dentry, root_ino}
use coffer_fs.Db.Rows.{find_name, count_names, without_name, move_name, update_inode, without_inode}
use coffer_fs.Db.Names.{
  Unique, count_names-without_name, Unique-without_name, All-without_name, count_names-move_name,
  All-move_name,
}
use coffer_fs.Db.Inodes.{
  has_inode, has_inode-update_inode, All-update_inode, has_inode-without_inode,
}

-- The root and `skip` need no name.
abbrev pub Named : ℕ → List Dentry → ℕ → Type 0
Named skip ds i = (i ≡ root_ino) ⊎ (i ≡ skip) ⊎ (0 < count_names i ds)

pub record Inv (skip : ℕ) (db : Db) : Type 0 where
  pub unique_names : Unique db.dentries
  pub no_dangling : All (λ d. has_inode d.ino db.inodes ≡ true) db.dentries
  pub all_named : All (λ x. Named skip db.dentries x.ino) db.inodes
  pub not_reused : All (λ x. x.ino ≤ db.seq) db.inodes

-- Every statement that leaves names, inode numbers and the sequence alone.
pub Inv-same :
    {skip : ℕ} {a b : Db}
    → a.dentries ≡ b.dentries
    → a.inodes ≡ b.inodes
    → a.seq ≡ b.seq
    → Inv skip a
    → Inv skip b
Inv-same p q r v = record {
  unique_names = rw (← p) v.unique_names;
  no_dangling = rw (← p, ← q) v.no_dangling;
  all_named = rw (← p, ← q) v.all_named;
  not_reused = rw (← q, ← r) v.not_reused;
}

-- UPDATE inodes SET …
pub Inv-set_columns :
    {skip : ℕ} {db : Db} (i : ℕ) (f : Columns → Columns)
    → Inv skip db
    → Inv skip (record db { inodes = update_inode i f db.inodes })
Inv-set_columns {skip} {db} i f v = record {
  unique_names = v.unique_names;
  no_dangling =
      All-map (λ d. has_inode d.ino db.inodes ≡ true)
        (λ d. has_inode d.ino (update_inode i f db.inodes) ≡ true)
        (λ d h. rw (has_inode-update_inode i f d.ino db.inodes) h) db.dentries v.no_dangling;
  all_named = All-update_inode i f (λ j. Named skip db.dentries j) db.inodes v.all_named;
  not_reused = All-update_inode i f (λ j. j ≤ db.seq) db.inodes v.not_reused;
}

pub Inv-weaken : {db : Db} (i : ℕ) → Inv root_ino db → Inv i db
Inv-weaken {db} i v = record {
  unique_names = v.unique_names;
  no_dangling = v.no_dangling;
  all_named =
      All-map (λ x. Named root_ino db.dentries x.ino) (λ x. Named i db.dentries x.ino)
        (λ x h. ground arith) db.inodes v.all_named;
  not_reused = v.not_reused;
}

-- An inode that turns out to have a name needs no exception.
pub Inv-has_name : {i : ℕ} {db : Db} → 0 < count_names i db.dentries → Inv i db → Inv root_ino db
Inv-has_name {i} {db} pos v = record {
  unique_names = v.unique_names;
  no_dangling = v.no_dangling;
  all_named =
      All-map (λ x. Named i db.dentries x.ino) (λ x. Named root_ino db.dentries x.ino)
        (λ x h. name_of x.ino h) db.inodes v.all_named;
  not_reused = v.not_reused;
}
  where
    name_of : (j : ℕ) → Named i db.dentries j → Named root_ino db.dentries j
    name_of j (inl h) = inl h
    name_of j (inr (inl h)) = inr (inr (rw h pos))
    name_of j (inr (inr h)) = inr (inr h)

-- INSERT INTO inodes: the new inode is the exception until it has its name.
pub Inv-insert_inode :
    {db : Db} (cols : Columns)
    → Inv root_ino db
    → Inv (suc db.seq) (record db {
      inodes = record { ino = suc db.seq; columns = cols } ∷ db.inodes;
      seq = suc db.seq;
    })
unfolding has_inode
Inv-insert_inode {db} cols v =
    let w = Inv-weaken (suc db.seq) v in
    record {
      unique_names = v.unique_names;
      no_dangling =
          All-map (λ d. has_inode d.ino db.inodes ≡ true)
            (λ d. (suc db.seq == d.ino || has_inode d.ino db.inodes) ≡ true) (λ d h. ground arith)
            db.dentries v.no_dangling;
      all_named = (inr (inl refl), w.all_named);
      not_reused = (
        omega arith,
        All-map (λ x. x.ino ≤ db.seq) (λ x. x.ino ≤ suc db.seq) (λ x h. omega arith) db.inodes
            v.not_reused,
      );
    }

-- INSERT INTO dentries
pub Inv-insert_dentry :
    {i : ℕ} {db : Db} (p : ℕ) (n : String)
    → find_name p n db.dentries ≡ none
    → has_inode i db.inodes ≡ true
    → Inv i db
    → Inv root_ino (record db { dentries = record { parent = p; name = n; ino = i } ∷ db.dentries })
unfolding count_names
Inv-insert_dentry {i} {db} p n free there v = record {
  unique_names = (free, v.unique_names);
  no_dangling = (there, v.no_dangling);
  all_named =
      All-map (λ x. Named i db.dentries x.ino)
        (λ x. Named root_ino (record { parent = p; name = n; ino = i } ∷ db.dentries) x.ino)
        (λ x h. ground arith) db.inodes v.all_named;
  not_reused = v.not_reused;
}

-- DELETE FROM dentries: the inode that was named may be without a name now.
pub Inv-without_name :
    {i : ℕ} {db : Db} (p : ℕ) (n : String)
    → find_name p n db.dentries ≡ some i
    → Inv root_ino db
    → Inv i (record db { dentries = without_name p n db.dentries })
Inv-without_name {i} {db} p n e v = record {
  unique_names = Unique-without_name p n db.dentries v.unique_names;
  no_dangling =
      All-without_name (λ d. has_inode d.ino db.inodes ≡ true) p n db.dentries v.no_dangling;
  all_named =
      All-map (λ x. Named root_ino db.dentries x.ino)
        (λ x. Named i (without_name p n db.dentries) x.ino)
        (λ x h. ground (arith, count_names-without_name p n i x.ino db.dentries v.unique_names e))
        db.inodes v.all_named;
  not_reused = v.not_reused;
}

still_there :
    (i : ℕ) (xs : List Inode) (ds : List Dentry)
    → count_names i ds ≡ 0
    → All (λ d. has_inode d.ino xs ≡ true) ds
    → All (λ d. has_inode d.ino (without_inode i xs) ≡ true) ds
unfolding count_names
still_there i xs [] e h = tt
still_there i xs (d ∷ ds) e h =
    ground (arith, has_inode-without_inode i d.ino xs, still_there i xs ds (ground arith) h.1)

only_others :
    (i : ℕ) (ds : List Dentry) (xs : List Inode)
    → All (λ x. Named i ds x.ino) xs
    → All (λ x. Named root_ino ds x.ino) (without_inode i xs)
only_others i ds [] h = tt
only_others i ds (x ∷ xs) h = ground (arith, only_others i ds xs h.1)

-- DELETE FROM inodes, of an inode with no name.
pub Inv-without_inode :
    {i : ℕ} {db : Db}
    → count_names i db.dentries ≡ 0
    → Inv i db
    → Inv root_ino (record db { inodes = without_inode i db.inodes })
Inv-without_inode {i} {db} e v = record {
  unique_names = v.unique_names;
  no_dangling = still_there i db.inodes db.dentries e v.no_dangling;
  all_named = only_others i db.dentries db.inodes v.all_named;
  not_reused = All-keep (λ x. x.ino ≤ db.seq) (λ x. not (x.ino == i)) db.inodes v.not_reused;
}

-- UPDATE dentries SET parent, name: to a free key, or to the key that the row has.
pub Inv-move_name :
    {db : Db} (p' : ℕ) (n' : String) (p : ℕ) (n : String)
    → Unique (move_name p' n' p n db.dentries)
    → Inv root_ino db
    → Inv root_ino (record db { dentries = move_name p' n' p n db.dentries })
Inv-move_name {db} p' n' p n u v = record {
  unique_names = u;
  no_dangling =
      All-move_name (λ i. has_inode i db.inodes ≡ true) p' n' p n db.dentries v.no_dangling;
  all_named =
      All-map (λ x. Named root_ino db.dentries x.ino)
        (λ x. Named root_ino (move_name p' n' p n db.dentries) x.ino)
        (λ x h. rw (count_names-move_name p' n' p n x.ino db.dentries) h) db.inodes v.all_named;
  not_reused = v.not_reused;
}
