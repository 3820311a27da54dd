-- ===== src/Fs/Consistency/Names.antt =====
-- The helpers that add, remove and move names keep the invariant of the two tables.
use coffer_fs.Base.{
  ℕ, String, ◌≡◌, refl, ◌∙◌, Bool, true, false, not, ◌&&◌, Option, some, List, arith, inl, inr,
  Option-cases, Bool-cases, ◌==◌, eq_iff,
}
use coffer_fs.Db.{Db, Columns, Dentry, Xattr, root_ino}
use coffer_fs.Db.Rows.{find_name, count_names, move_name}
use coffer_fs.Db.Names.{Unique, Unique-move_name, move_name_same, move_name_missing}
use coffer_fs.Db.Inodes.{has_inode}
use coffer_fs.Db.Check.Invariant.{
  Inv, Inv-same, Inv-set_columns, Inv-has_name, Inv-insert_inode, Inv-insert_dentry,
  Inv-without_name, Inv-without_inode, Inv-move_name,
}
use coffer_fs.Sql.Rules.{
  Success, Ensures, Ensures-pure, Ensures-if, Ensures-statement, Ensures-now_secs, Ensures-weaken,
  Ensures-bind, Ensures-query, Ensures-Keeps,
}
use coffer_fs.Fs.Inodes.{
  insert_dentry, link_dentry, insert_inode, insert_child, delete_xattrs, delete_inode_row,
  delete_inode, unlink_dentry,
}
use coffer_fs.Fs.Entries.{move_dentry, is_taken, same_key}
use coffer_fs.Fs.Consistency.Frame.{IsFramed, Keeps-set_columns}

abbrev pub Sound : Db → Type 0
Sound = Inv root_ino

Inv-IsFramed : (i : ℕ) → IsFramed (Inv i)
Inv-IsFramed i = record {
  columns = λ j f db v. Inv-set_columns j f v;
  blocks = λ bs db v. Inv-same refl refl refl v;
  xattrs = λ xs db v. Inv-same refl refl refl v;
}

pub Sound-IsFramed : IsFramed Sound
Sound-IsFramed = Inv-IsFramed root_ino

-- What a new name asks of its inode.
abbrev pub Linkable : ℕ → Db → Type 0
Linkable ino db = Inv ino db × (has_inode ino db.inodes ≡ true)

insert_dentry-Sound :
    (p : ℕ) (n : String) (ino : ℕ) (db : Db)
    → Linkable ino db
    → Success (λ x _. Sound x.1) (insert_dentry p n ino db) db
unfolding insert_dentry
insert_dentry-Sound p n ino db (v, there) = elim (Option-cases (find_name p n db.dentries)) [
  | inl e ↦ rw (e, insert_dentry) (Inv-insert_dentry p n e there v)
  | inr (x, e) ↦ rw (e, insert_dentry) tt
]

pub link_dentry-Sound :
    (p : ℕ) (n : String) (ino now : ℕ)
    → Ensures (Linkable ino) (link_dentry p n ino now) (λ _. Sound)
unfolding link_dentry
link_dentry-Sound p n ino now =
    Ensures-bind (Ensures-statement _ (insert_dentry-Sound p n ino))
      λ _. Ensures-Keeps (Keeps-set_columns Sound-IsFramed p _)

insert_inode-Linkable :
    (cols : Columns) (db : Db)
    → Sound db
    → Success (λ x _. Linkable x.0 x.1) (insert_inode cols db) db
unfolding insert_inode has_inode
insert_inode-Linkable cols db v = (Inv-insert_inode cols v, ground arith)

pub insert_child-Sound :
    (p : ℕ) (n : String) (kind mode uid gid : ℕ) (target : Option String)
    → Ensures Sound (insert_child p n kind mode uid gid target) (λ _. Sound)
unfolding insert_child
insert_child-Sound p n kind mode uid gid target =
    Ensures-bind (Ensures-now_secs (λ t db v. v)) λ now.
      Ensures-bind (Ensures-statement _ (insert_inode-Linkable _))
        λ ino. Ensures-bind (link_dentry-Sound p n ino now) λ _. Ensures-pure ino (λ db v. v)

-- An inode that lost its last name.
abbrev Nameless : ℕ → Db → Type 0
Nameless ino db = Inv ino db × (count_names ino db.dentries ≡ 0)

delete_xattrs-Nameless :
    (ino : ℕ) (doomed : Xattr → Bool) (db : Db)
    → Nameless ino db
    → Success (λ x _. Nameless ino x.1) (delete_xattrs doomed db) db
unfolding delete_xattrs
delete_xattrs-Nameless ino doomed db (v, e) = elim (Option-cases db.xattrs) [
  | inl m ↦ rw (m, delete_xattrs) tt
  | inr (rows, m) ↦ rw (m, delete_xattrs) (Inv-same refl refl refl v, e)
]

pub delete_inode-Sound : (ino : ℕ) → Ensures (Nameless ino) (delete_inode ino) (λ _. Sound)
unfolding delete_inode delete_inode_row
delete_inode-Sound ino =
    Ensures-bind
      (Ensures-statement {Q = λ _. Nameless ino} _ (λ db v. (Inv-same refl refl refl v.0, v.1)))
      λ _.
        Ensures-bind (Ensures-statement _ (delete_xattrs-Nameless ino _))
          λ _. Ensures-statement _ (λ db v. Inv-same refl refl refl (Inv-without_inode v.1 v.0))

-- The name (p, n) stands for `ino`.
abbrev pub NameOf : ℕ → String → ℕ → Db → Type 0
NameOf p n ino db = Sound db × (find_name p n db.dentries ≡ some ino)

pub unlink_dentry-Sound :
    (p : ℕ) (n : String) (ino now : ℕ)
    → Ensures (NameOf p n ino) (unlink_dentry p n ino now) (λ _. Sound)
unfolding unlink_dentry
unlink_dentry-Sound p n ino now =
    Ensures-bind (Ensures-statement {Q = λ _. Inv ino} _ (λ db v. Inv-without_name p n v.1 v.0))
      λ _. Ensures-bind (Ensures-query _) λ remaining.
        Ensures-bind
          (Ensures-if (remaining == 0) _ _
            (λ z. Ensures-weaken (λ db v. (v.0, v.1 ∙ ground arith)) (delete_inode-Sound ino))
            (λ nz.
              Ensures-weaken (λ db v. Inv-has_name (ground arith) v.0)
                (Ensures-Keeps (Keeps-set_columns Sound-IsFramed ino _))))
          λ _. Ensures-Keeps (Keeps-set_columns Sound-IsFramed p _)

move_name-Unique :
    (p' : ℕ) (n' : String) (p : ℕ) (n : String) (ds : List Dentry)
    → Unique ds
    → (is_taken (find_name p n ds) && is_taken (find_name p' n' ds) && not (same_key p' n' p n))
      ≡ false
    → Unique (move_name p' n' p n ds)
move_name-Unique p' n' p n ds u h = elim (Option-cases (find_name p n ds)) [
  | inl e ↦ rw (move_name_missing p' n' p n ds e) u
  | inr (x, e) ↦ elim (Option-cases (find_name p' n' ds)) [
    | inl e' ↦ Unique-move_name p' n' p n ds u e'
    | inr (y, e') ↦ same (ground (arith, eq_iff n' n)) (ground (arith, eq_iff n' n))
  ]
]
  where
    same : p' ≡ p → n' ≡ n → Unique (move_name p' n' p n ds)
    same a b = rw (a, b, move_name_same p n ds) u

pub move_dentry-Sound :
    (p' : ℕ) (n' : String) (p : ℕ) (n : String) (db : Db)
    → Sound db
    → Success (λ x _. Sound x.1) (move_dentry p' n' p n db) db
unfolding move_dentry
move_dentry-Sound p' n' p n db v = elim (Bool-cases conflict) [
  | inl h ↦ rw h tt
  | inr h ↦
      rw h (Inv-move_name p' n' p n (move_name-Unique p' n' p n db.dentries v.unique_names h) v)
]
  where
    conflict : Bool
    conflict =
        is_taken (find_name p n db.dentries)
        && is_taken (find_name p' n' db.dentries)
        && not (same_key p' n' p n)
