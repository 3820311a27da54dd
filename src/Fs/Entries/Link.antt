-- ===== src/Fs/Entries/Link.antt =====
-- `link` of src/fs.rs, where no statement fails: the reply, and the tables that it leaves.
use mathlib.Core.Option
use coffer_fs.Base.{
  ℕ, ◌+◌, ◌%◌, ◌≡◌, ◌≢◌, refl, ap, ◌∙◌, sym, String, Bool, true, false, none, some, ◌∷◌, arith, ok,
  ◌==◌, if◌then◌else◌, subst, ==_refl,
}
use coffer_fs.Db.{Db, Columns, Dentry, kind_dir}
use coffer_fs.Db.Rows.{find_name, find_inode, count_names}
use coffer_fs.Db.Names.{other_name}
use coffer_fs.Db.Inodes.{find_inode-update_inode}
use coffer_fs.Sql.{enoent, eio, Conn, always_eio}
use coffer_fs.Sql.Calm.{Calm}
use coffer_fs.Sql.Total.{
  Is, Succeeds, Succeeds-pure, Succeeds-or_fail, Succeeds-bind, Succeeds-query, Succeeds-execute,
  Succeeds-statement, Succeeds-now_secs, Succeeds-map_err, Succeeds-transaction, Succeeds-given,
}
use coffer_fs.Fs.Schema.{
  CofferFs, InodeRow, utf8, to_str, child_ino, row_by_ino, select_row, nlink_of, u32_mod,
}
use coffer_fs.Fs.Inodes.{set_columns, set_times, set_ctime, insert_dentry, link_dentry}
use coffer_fs.Fs.Attr.{named, attr_or_eio, FileAttr, to_attr}
use coffer_fs.Fs.Entries.{link, absent}
use coffer_fs.Fs.Entries.Mkdir.{replied}
use coffer_fs.Fs.Entries.Rename.{new_name}
use coffer_fs.Fs.Content.Succeeding.{Succeeds-touch, Succeeds-writable}

-- After `link` of the inode `ino` to the name `n` in `p`, with this reply.
pub record Linked (ino p : ℕ) (n : String) (d : Db) (attr : FileAttr) (db : Db) : Type 0 where
  pub number : attr.ino ≡ ino
  pub nlink : attr.nlink ≡ (1 + count_names ino d.dentries) % u32_mod
  pub names_it : find_name p n db.dentries ≡ some ino
  pub other_names :
      (q : ℕ) (m : String) → (p ≡ q → n ≢ m) → find_name q m db.dentries ≡ find_name q m d.dentries
  pub links :
      (j : ℕ) → count_names j db.dentries ≡ (if ino == j then 1 else 0) + count_names j d.dentries
  pub content : db.blocks ≡ d.blocks

module _ (ino p : ℕ) (n : String) (cols : Columns) (d : Db)
    (f : find_inode ino d.inodes ≡ some cols) (file : (cols.kind == kind_dir) ≡ false) where
  abbrev added : Dentry
  added = record { parent = p; name = n; ino = ino }

  abbrev with_link : Db
  with_link = record d { dentries = added ∷ d.dentries }

  abbrev dated : ℕ → Db
  dated now = set_columns p (set_times now) with_link

  abbrev after : ℕ → Db
  after now = set_columns ino (set_ctime now) (dated now)

  -- The columns of the inode, which may be those of the directory too.
  abbrev cols_at : ℕ → Bool → Columns
  cols_at now b = set_ctime now (if b then set_times now cols else cols)

  nlink_after :
      (now : ℕ) (b : Bool)
      → nlink_of ino (cols_at now b) (added ∷ d.dentries)
        ≡ (1 + count_names ino d.dentries) % u32_mod
  unfolding nlink_of count_names
  nlink_after now true = rw (file, ==_refl ino) refl
  nlink_after now false = rw (file, ==_refl ino) refl

  find_inode-dated :
      (now : ℕ)
      → find_inode ino (dated now).inodes ≡ some (if p == ino then set_times now cols else cols)
  find_inode-dated now =
      find_inode-update_inode p (set_times now) ino d.inodes ∙ rw f (either (p == ino))
    where
      either :
          (b : Bool)
          → (if b then Option.map (set_times now) (some cols) else some cols)
            ≡ some (if b then set_times now cols else cols)
      either true = refl
      either false = refl

  find_inode-after : (now : ℕ) → find_inode ino (after now).inodes ≡ some (cols_at now (p == ino))
  find_inode-after now =
      find_inode-update_inode ino (set_ctime now) ino (dated now).inodes
      ∙ rw (==_refl ino, find_inode-dated now) refl

  abbrev row_at : ℕ → InodeRow
  row_at now = record {
    columns = cols_at now (p == ino);
    nlink = nlink_of ino (cols_at now (p == ino)) (added ∷ d.dentries);
  }

  select_row-after : (now : ℕ) → select_row ino (after now) ≡ some (row_at now)
  unfolding select_row
  select_row-after now = rw (find_inode-after now) refl

  after-Linked : (now : ℕ) → Linked ino p n d (to_attr ino (row_at now)) (after now)
  unfolding to_attr find_name count_names
  after-Linked now = record {
    number = refl;
    nlink = nlink_after now (p == ino);
    names_it = rw (new_name p n ino) refl;
    other_names = λ q m h. rw (other_name p n q m added h (new_name p n ino)) refl;
    links = λ j. ground arith;
    content = refl;
  }

  attr_or_eio-Linked :
      (now : ℕ) → Succeeds (Is (after now)) (attr_or_eio ino) (λ attr db. Linked ino p n d attr db)
  unfolding attr_or_eio row_by_ino
  attr_or_eio-Linked now =
      Succeeds-bind {Q = λ o db. Is (after now) db × (o ≡ some (row_at now))}
        (Succeeds-map_err always_eio
          (Succeeds-query _ λ db e. (e, ap (select_row ino) e ∙ select_row-after now)))
        λ o. Succeeds-given λ k.
          Succeeds-bind {Q = λ r db. Is (after now) db × (r ≡ row_at now)}
            (Succeeds-or_fail o eio (row_at now) k λ db e. (e, refl))
            λ r. Succeeds-given λ k. rw k (
              Succeeds-pure _ λ db e.
                subst (Linked ino p n d (to_attr ino (row_at now))) (sym e) (after-Linked now))

  link_dentry-dated :
      (now : ℕ)
      → find_name p n d.dentries ≡ none
      → Succeeds (Is d) (link_dentry p n ino now) (λ _. Is (dated now))
  unfolding link_dentry insert_dentry
  link_dentry-dated now g =
      Succeeds-bind {Q = λ _. Is with_link}
        (Succeeds-statement _ λ db e.
          ((tt, with_link), ap (insert_dentry p n ino) e ∙ rw (g, insert_dentry) refl, refl))
        λ _. Succeeds-execute _ λ db e. ap (set_columns p (set_times now)) e

  row_now :
      select_row ino d ≡ some (record { columns = cols; nlink = nlink_of ino cols d.dentries })
  unfolding select_row
  row_now = rw f refl

  link-Linked :
      (fs : CofferFs)
      → fs.read_only ≡ false
      → find_name p n d.dentries ≡ none
      → Succeeds (Is d) (link fs ino p (utf8 n)) (λ attr db. Linked ino p n d attr db)
  unfolding link named to_str child_ino absent row_by_ino
  link-Linked fs w g = Succeeds-bind Succeeds-touch λ _. Succeeds-bind (Succeeds-writable fs w) λ _.
      Succeeds-bind {Q = λ t db. Is d db × (t ≡ n)} (Succeeds-or_fail _ _ n refl λ db e. (e, refl))
        λ t. Succeeds-given λ k. rw k (
          Succeeds-transaction always_eio (
            Succeeds-bind {Q = λ o db. Is d db × (o ≡ some row)}
              (Succeeds-map_err always_eio
                (Succeeds-query _ λ db e. (e, ap (select_row ino) e ∙ row_now)))
              λ o. Succeeds-given λ k.
                Succeeds-bind {Q = λ r db. Is d db × (r ≡ row)}
                  (Succeeds-or_fail o enoent row k λ db e. (e, refl))
                  λ r. Succeeds-given λ k.
                    rw (k, file)
                      (Succeeds-bind {Q = λ _. Is d} (Succeeds-pure tt λ db e. e) λ _.
                        Succeeds-bind {Q = λ o db. Is d db × (o ≡ none)}
                          (Succeeds-map_err always_eio (
                            Succeeds-query _ λ db e. (e, ap (λ b. find_name p n b.dentries) e ∙ g)))
                          λ o. Succeeds-given λ k.
                            Succeeds-bind {Q = λ _. Is d} (rw k (Succeeds-pure tt λ db e. e)) λ _.
                              Succeeds-bind {Q = λ _. Is d} (Succeeds-now_secs λ t db e. e) λ now.
                                Succeeds-bind
                                  (Succeeds-map_err always_eio (link_dentry-dated now g))
                                  λ _.
                                    Succeeds-bind {Q = λ _. Is (after now)}
                                      (Succeeds-map_err always_eio (
                                        Succeeds-execute _
                                          λ db e. ap (set_columns ino (set_ctime now)) e))
                                      λ _. attr_or_eio-Linked now)))
    where
      row : InodeRow
      row = record { columns = cols; nlink = nlink_of ino cols d.dentries }

-- Where no statement fails and the mount is writable, `link` of an inode that is no directory to a
-- name that is not taken succeeds. The name then leads to the inode, which has one name more, as
-- the reply shows (the count is a u32); all other names and counts and all contents are as before.
pub link_lem :
    (fs : CofferFs) (ino p : ℕ) (n : String) (cols : Columns) (c : Conn)
    → Calm c
    → fs.read_only ≡ false
    → find_inode ino c.db.inodes ≡ some cols
    → (cols.kind == kind_dir) ≡ false
    → find_name p n c.db.dentries ≡ none
    → (attr : FileAttr) × ((link fs ino p (utf8 n) c).0 ≡ ok attr)
      × Linked ino p n c.db attr (link fs ino p (utf8 n) c).1.db
link_lem fs ino p n cols c calm w f file g =
    replied (λ attr db. Linked ino p n c.db attr db) (link fs ino p (utf8 n) c).0
      (link fs ino p (utf8 n) c).1 ((link-Linked ino p n cols c.db f file fs w g).at c calm refl)
