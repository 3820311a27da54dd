-- ===== src/Fs/Entries/Rmdir.antt =====
-- `rmdir` of src/fs.rs, where no statement fails.
use coffer_fs.Base.{
  ℕ, ◌≡◌, ◌≢◌, refl, ap, ◌∙◌, sym, String, false, some, List, arith, ok, ◌==◌, subst, ==_iff,
}
use coffer_fs.Db.{Db, Columns, Xattr, kind_dir, root_ino}
use coffer_fs.Db.Rows.{find_name, find_inode, has_entries}
use coffer_fs.Db.Names.{Unique}
use coffer_fs.Sql.{enoent, Conn, always_eio}
use coffer_fs.Sql.Calm.{Calm}
use coffer_fs.Sql.Total.{
  Is, Succeeds, Succeeds-if, Succeeds-pure, Succeeds-or_fail, Succeeds-bind, Succeeds-query,
  Succeeds-now_secs, Succeeds-map_err, Succeeds-transaction, Succeeds-given, Succeeds-post,
}
use coffer_fs.Fs.Schema.{CofferFs, utf8, to_str, child_ino, has_children}
use coffer_fs.Fs.Inodes.{ensure_removable, removable}
use coffer_fs.Fs.Attr.{named}
use coffer_fs.Fs.Entries.{rmdir}
use coffer_fs.Fs.Entries.Unlink.{Unlinked, unlink_dentry-unlinked, unlinked-Unlinked}
use coffer_fs.Fs.Content.Succeeding.{Succeeds-touch, Succeeds-writable, HasXattrs, finished}

-- A file, and a directory with no entries, may be removed.
module _ (ino : ℕ) (cols : Columns) (d : Db) (f : find_inode ino d.inodes ≡ some cols)
    (e : has_entries ino d.dentries ≡ false) where
  removable-empty : Succeeds (Is d) (removable ino (some cols)) (λ _. Is d)
  unfolding has_children
  removable-empty =
      Succeeds-if (cols.kind == kind_dir) _ _
        (λ k.
          Succeeds-bind {Q = λ b db. Is d db × (b ≡ false)}
            (Succeeds-map_err always_eio
              (Succeeds-query _ λ db h. (h, ap (λ x. has_entries ino x.dentries) h ∙ e)))
            λ b. Succeeds-given λ k. rw k (Succeeds-pure tt λ db h. h))
        (λ k. Succeeds-pure tt λ db h. h)

  ensure_removable-empty : Succeeds (Is d) (ensure_removable ino) (λ _. Is d)
  unfolding ensure_removable
  ensure_removable-empty =
      Succeeds-bind {Q = λ o db. Is d db × (o ≡ some cols)}
        (Succeeds-map_err always_eio
          (Succeeds-query _ λ db h. (h, ap (λ x. find_inode ino x.inodes) h ∙ f)))
        λ o. Succeeds-given λ k. rw k removable-empty

rmdir-Unlinked :
    (fs : CofferFs) (p : ℕ) (n : String) (ino : ℕ) (cols : Columns) (rows : List Xattr) (d : Db)
    → fs.read_only ≡ false
    → find_name p n d.dentries ≡ some ino
    → (ino == root_ino) ≡ false
    → find_inode ino d.inodes ≡ some cols
    → has_entries ino d.dentries ≡ false
    → Unique d.dentries
    → d.xattrs ≡ some rows
    → Succeeds (Is d) (rmdir fs p (utf8 n)) (λ r db. (r ≡ tt) × Unlinked p n ino d db)
unfolding rmdir named to_str child_ino
rmdir-Unlinked fs p n ino cols rows d w f r g e u x = Succeeds-bind Succeeds-touch λ _.
    Succeeds-bind (Succeeds-writable fs w) λ _.
      Succeeds-bind {Q = λ t db. Is d db × (t ≡ n)} (Succeeds-or_fail _ _ n refl λ db e. (e, refl))
        λ t. Succeeds-given λ k. rw k (
          Succeeds-transaction always_eio (
            Succeeds-bind {Q = λ o db. Is d db × (o ≡ some ino)}
              (Succeeds-map_err always_eio
                (Succeeds-query _ λ db e. (e, ap (λ b. find_name p n b.dentries) e ∙ f)))
              λ o. Succeeds-given λ k.
                Succeeds-bind {Q = λ i db. Is d db × (i ≡ ino)}
                  (Succeeds-or_fail o enoent ino k λ db e. (e, refl))
                  λ i. Succeeds-given λ k.
                    rw (k, r)
                      (Succeeds-bind {Q = λ _. Is d} (Succeeds-pure tt λ db e. e) λ _.
                        Succeeds-bind (ensure_removable-empty ino cols d g e) λ _.
                          Succeeds-bind {Q = λ _. Is d} (Succeeds-now_secs λ t db e. e) λ now.
                            Succeeds-post
                              (λ r db e. (
                                refl,
                                subst (Unlinked p n ino d) (sym e)
                                    (unlinked-Unlinked p n ino now rows d u f),
                              ))
                              (Succeeds-map_err always_eio
                                (unlink_dentry-unlinked ino rows p n now d x)))))

-- Where no statement fails, the mount is writable and the container has the table `xattrs`: `rmdir`
-- of a name that leads to an inode other than the root, in which nothing is named, succeeds. It
-- removes that name and no other, with the inode where it was its last name, and the contents of
-- other files stay.
pub rmdir_lem :
    (fs : CofferFs) (p : ℕ) (n : String) (ino : ℕ) (cols : Columns) (c : Conn)
    → Calm c
    → fs.read_only ≡ false
    → find_name p n c.db.dentries ≡ some ino
    → ino ≢ root_ino
    → find_inode ino c.db.inodes ≡ some cols
    → has_entries ino c.db.dentries ≡ false
    → Unique c.db.dentries
    → HasXattrs c.db
    → ((rmdir fs p (utf8 n) c).0 ≡ ok tt) × Unlinked p n ino c.db (rmdir fs p (utf8 n) c).1.db
rmdir_lem fs p n ino cols c calm w f r g e u (rows, x) =
    finished tt (Unlinked p n ino c.db) (rmdir fs p (utf8 n) c).0 (rmdir fs p (utf8 n) c).1
      ((rmdir-Unlinked fs p n ino cols rows c.db w f (not_root r) g e u x).at c calm refl)
  where
    not_root : ino ≢ root_ino → (ino == root_ino) ≡ false
    not_root h = ground (arith, ==_iff ino root_ino, h)
