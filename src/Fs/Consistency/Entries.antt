-- ===== src/Fs/Consistency/Entries.antt =====
-- The calls on names keep the invariant, whatever statement fails.
use coffer_fs.Base.{
  ℕ, String, ◌≡◌, ◌∙◌, true, Option, none, some, Result, ok, err, inl, inr, Option-cases, ◌==◌,
  ◌&&◌, ◌||◌,
}
use coffer_fs.Db.{Db, root_ino}
use coffer_fs.Db.Rows.{find_name, find_inode}
use coffer_fs.Db.Inodes.{has_inode, has_inode-find_inode}
use coffer_fs.Db.Check.Invariant.{Inv-weaken}
use coffer_fs.Sql.{SqlError, always_eio, or_fail, enoent, ebusy, eperm, einval, eexist}
use coffer_fs.Sql.Rules.{
  Ensures, Ensures-pure, Ensures-if, Ensures-or_fail, Ensures-statement, Ensures-now_secs,
  Ensures-bind, Ensures-map_err, Ensures-query, Ensures-Keeps, Keeps, Keeps-pure, Keeps-fail,
  Keeps-or_fail, Keeps-if, Keeps-attempt, Keeps-map_err, Keeps-bind, Keeps-transaction,
}
use coffer_fs.Fs.Schema.{CofferFs, OsStr, InodeRow, select_row, row_by_ino}
use coffer_fs.Fs.Attr.{errno_for}
use coffer_fs.Fs.Entries.{
  mkdir, unlink, rmdir, symlink, create, check_not_full, link, rename, RenameFlags, is_taken,
  absent_if_known, replace_target,
}
use coffer_fs.Fs.Consistency.Frame
use coffer_fs.Fs.Consistency.Frame.{
  Keeps-touch, Keeps-writable, Keeps-named, Keeps-row_by_ino, Keeps-child_ino, Keeps-attr_or_eio,
  Keeps-check_quota, Keeps-current_total_size,
}
use coffer_fs.Fs.Consistency.Names.{
  Sound, Sound-IsFramed, Linkable, link_dentry-Sound, insert_child-Sound, unlink_dentry-Sound,
  move_dentry-Sound,
}
use coffer_fs.Fs.Consistency.Guards.{
  guarded_name, check, absent_lem, Keeps-ensure_removable, find_child, found_child,
}

row_is_there :
    (ino : ℕ) (row : InodeRow) (db : Db)
    → select_row ino db ≡ some row
    → has_inode ino db.inodes ≡ true
unfolding select_row
row_is_there ino row db h = elim (Option-cases (find_inode ino db.inodes)) [
  | inl e ↦ absurd (no_row (rw e at h))
  | inr (cols, e) ↦ has_inode-find_inode ino db.inodes cols e
]
  where
    no_row : ¬ (none ≡ some row)
    no_row e = cc

module _ (fs : CofferFs) where
  pub unlink-Keeps : (p : ℕ) (name : OsStr) → Keeps Sound (unlink fs p name)
  unfolding unlink
  unlink-Keeps p name = guarded_name fs name λ text. Keeps-transaction always_eio (
      Ensures-bind (find_child p text) λ o. Ensures-bind (found_child p text o) λ ino.
        Ensures-bind (Ensures-now_secs (λ t db v. v))
          λ now. Ensures-map_err always_eio (unlink_dentry-Sound p text ino now))

  pub rmdir-Keeps : (p : ℕ) (name : OsStr) → Keeps Sound (rmdir fs p name)
  unfolding rmdir
  rmdir-Keeps p name = guarded_name fs name λ text. Keeps-transaction always_eio (
      Ensures-bind (find_child p text) λ o. Ensures-bind (found_child p text o) λ ino.
        Ensures-bind (check (ino == root_ino) ebusy) λ _.
          Ensures-bind (Ensures-Keeps (Keeps-ensure_removable ino)) λ _.
            Ensures-bind (Ensures-now_secs (λ t db v. v))
              λ now. Ensures-map_err always_eio (unlink_dentry-Sound p text ino now))

  pub mkdir-Keeps : (p : ℕ) (name : OsStr) (mode : ℕ) → Keeps Sound (mkdir fs p name mode)
  unfolding mkdir
  mkdir-Keeps p name mode = guarded_name fs name λ text.
      Keeps-bind
        (Keeps-transaction always_eio (
          Ensures-bind (Ensures-Keeps (Keeps-map_err always_eio (Keeps-child_ino p text))) λ found.
            Ensures-bind (Ensures-Keeps (absent_lem found))
              λ _. Ensures-map_err always_eio (insert_child-Sound p text _ _ _ _ none)))
        λ ino. Keeps-attr_or_eio ino

  pub symlink-Keeps : (p : ℕ) (name target : OsStr) → Keeps Sound (symlink fs p name target)
  unfolding symlink
  symlink-Keeps p name target = guarded_name fs name λ text. Keeps-bind (Keeps-named target) λ to.
      Keeps-bind
        (Keeps-transaction always_eio (
          Ensures-bind (Ensures-Keeps (Keeps-attempt (Keeps-child_ino p text))) λ found.
            Ensures-bind (Ensures-Keeps (passed_over found)) λ _.
              Ensures-bind (Ensures-Keeps (Keeps-check_quota fs true _))
                λ _. Ensures-map_err always_eio (insert_child-Sound p text _ _ _ _ (some to))))
        λ ino. Keeps-attr_or_eio ino
    where
      passed_over : (r : Result SqlError (Option ℕ)) → Keeps Sound (absent_if_known r)
      passed_over (ok o) = absent_lem o
      passed_over (err e) = Keeps-pure tt

  pub create-Keeps : (p : ℕ) (name : OsStr) (mode : ℕ) → Keeps Sound (create fs p name mode)
  unfolding create check_not_full
  create-Keeps p name mode = guarded_name fs name λ text.
      Keeps-bind
        (Keeps-transaction errno_for (
          Ensures-bind (Ensures-Keeps (Keeps-map_err always_eio (Keeps-child_ino p text))) λ found.
            Ensures-bind (Ensures-Keeps (absent_lem found)) λ _.
              Ensures-bind (Ensures-Keeps room)
                λ _. Ensures-map_err errno_for (insert_child-Sound p text _ _ _ _ none)))
        λ ino. Keeps-attr_or_eio ino
    where
      room : Keeps Sound (check_not_full fs)
      room = Keeps-if _ _ _ (Keeps-pure tt) (
          Keeps-bind (Keeps-attempt Keeps-current_total_size)
            λ used. Keeps-if _ _ _ (Keeps-fail _) (Keeps-pure tt))

  -- The file that gets a new name is there, and stays there while the name is looked up.
  found_row :
      (ino : ℕ) (o : Option InodeRow)
      → Ensures
          (λ db. Sound db × (select_row ino db ≡ o))
          (or_fail o enoent)
          (λ row db. Sound db × (has_inode ino db.inodes ≡ true))
  found_row ino o = Ensures-or_fail o enoent λ row e db h. (h.0, row_is_there ino row db (h.1 ∙ e))

  pub link-Keeps : (ino p : ℕ) (name : OsStr) → Keeps Sound (link fs ino p name)
  unfolding link row_by_ino
  link-Keeps ino p name = guarded_name fs name λ text. Keeps-transaction always_eio (
      Ensures-bind (Ensures-map_err always_eio (Ensures-query (select_row ino))) λ o.
        Ensures-bind (found_row ino o) λ row. Ensures-bind (check _ eperm) λ _.
          Ensures-bind (Ensures-Keeps (Keeps-map_err always_eio (Keeps-child_ino p text))) λ taken.
            Ensures-bind (Ensures-Keeps (absent_lem taken)) λ _.
              Ensures-bind
                (Ensures-now_secs {Q = λ _. Linkable ino} (λ t db v. (Inv-weaken ino v.0, v.1)))
                λ now.
                  Ensures-bind (Ensures-map_err always_eio (link_dentry-Sound p text ino now)) λ _.
                    Ensures-Keeps (
                      Keeps-bind
                        (Keeps-map_err always_eio (Frame.Keeps-set_columns Sound-IsFramed ino _))
                        λ _. Keeps-attr_or_eio ino))

  replaced :
      (ino p' : ℕ) (n' : String) (o : Option ℕ)
      → Ensures
          (λ db. Sound db × (find_name p' n' db.dentries ≡ o))
          (replace_target ino p' n' o)
          (λ _. Sound)
  replaced ino p' n' none = Ensures-pure tt λ db h. h.0
  replaced ino p' n' (some existing) =
      Ensures-if (existing == ino) _ _ (λ _. Ensures-pure tt λ db h. h.0)
        λ _. Ensures-bind (Ensures-Keeps (Keeps-ensure_removable existing)) λ _.
          Ensures-bind (Ensures-now_secs (λ t db v. v))
            λ now. Ensures-map_err always_eio (unlink_dentry-Sound p' n' existing now)

  pub rename-Keeps :
      (p : ℕ) (name : OsStr) (p' : ℕ) (name' : OsStr) (flags : RenameFlags)
      → Keeps Sound (rename fs p name p' name' flags)
  unfolding rename
  rename-Keeps p name p' name' flags = guarded_name fs name λ from.
      Keeps-bind (Keeps-named name') λ to. Keeps-transaction always_eio (
        Ensures-bind (Ensures-Keeps (Keeps-map_err always_eio (Keeps-child_ino p from))) λ found.
          Ensures-bind (Ensures-Keeps (Keeps-or_fail found enoent)) λ ino.
            Ensures-bind (find_child p' to) λ target.
              Ensures-bind (check (flags.exchange || flags.whiteout) einval) λ _.
                Ensures-bind (check (flags.noreplace && is_taken target) eexist) λ _.
                  Ensures-bind (replaced ino p' to target) λ _.
                    Ensures-bind (Ensures-now_secs (λ t db v. v)) λ now.
                      Ensures-bind
                        (Ensures-map_err always_eio
                          (Ensures-statement _ (move_dentry-Sound p' to p from)))
                        λ _. Ensures-map_err always_eio (
                          Ensures-statement _ (λ db v.
                            Sound-IsFramed.columns p' _ _ (Sound-IsFramed.columns p _ _ v))))
