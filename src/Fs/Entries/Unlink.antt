-- ===== src/Fs/Entries/Unlink.antt =====
-- `unlink` of src/fs.rs, where no statement fails: the tables that it leaves.
use mathlib.Core.Option
use coffer_fs.Base.{
  ℕ, suc, ◌≡◌, ◌≢◌, refl, ap, ◌∙◌, sym, String, Bool, true, false, not, none, some, List, [], ◌∷◌,
  ◌/◌, ◌%◌, arith, ok, ◌==◌, if◌then◌else◌, keep, subst, ==_refl, ==_iff, byte,
}
use coffer_fs.Db.{Db, Inode, Block, Xattr, block_size}
use coffer_fs.Db.Rows.{find_name, find_inode, find_block, count_names, without_name, without_inode}
use coffer_fs.Db.Names.{
  Unique, count_names-without_name, find_name-without_name_self, find_name-without_other,
}
use coffer_fs.Db.Inodes.{find_inode-update_inode}
use coffer_fs.Db.Blocks.{byte_at, find_block-keep}
use coffer_fs.Sql.{enoent, Conn, always_eio, execute}
use coffer_fs.Sql.Calm.{Calm}
use coffer_fs.Sql.Total.{
  Is, Succeeds, Succeeds-or_fail, Succeeds-bind, Succeeds-query, Succeeds-execute,
  Succeeds-statement, Succeeds-now_secs, Succeeds-map_err, Succeeds-transaction, Succeeds-given,
  Succeeds-post,
}
use coffer_fs.Fs.Schema.{CofferFs, utf8, to_str, child_ino}
use coffer_fs.Fs.Inodes.{
  set_columns, set_ctime, set_times, delete_xattrs, delete_inode_row, delete_inode, unlink_dentry,
}
use coffer_fs.Fs.Attr.{named}
use coffer_fs.Fs.Entries.{unlink}
use coffer_fs.Fs.Content.Succeeding.{Succeeds-touch, Succeeds-writable, HasXattrs, finished}

module _ (ino : ℕ) (rows : List Xattr) where
  -- The rows of the inode go.
  abbrev gone : Db → Db
  gone d = record d {
    blocks = keep (λ b. not (b.ino == ino)) d.blocks;
    xattrs = some (keep (λ x. not (x.ino == ino)) (keep (λ x. not (x.ino == ino)) rows));
    inodes = without_inode ino d.inodes;
  }

  abbrev unfiled : Db → Db
  unfiled d = record d { blocks = keep (λ b. not (b.ino == ino)) d.blocks }

  delete_inode-gone :
      (d : Db) → d.xattrs ≡ some rows → Succeeds (Is d) (delete_inode ino) (λ _. Is (gone d))
  unfolding delete_inode delete_xattrs delete_inode_row
  delete_inode-gone d x =
      Succeeds-bind {Q = λ _. Is d1} (Succeeds-execute _ λ db e. ap unfiled e) λ _.
        Succeeds-bind {Q = λ _. Is d2}
          (Succeeds-statement _
            λ db e. ((tt, d2), ap (delete_xattrs (λ x. x.ino == ino)) e ∙ deleted, refl))
          λ _. Succeeds-execute _ λ db e. ap (delete_inode_row ino) e
    where
      d1 : Db
      d1 = unfiled d

      d2 : Db
      d2 = record d1 { xattrs = some (keep (λ x. not (x.ino == ino)) rows) }

      deleted : delete_xattrs (λ x. x.ino == ino) d1 ≡ ok (tt, d2)
      deleted = rw (x, delete_xattrs) refl

  module _ (p : ℕ) (n : String) (now : ℕ) where
    abbrev unnamed : Db → Db
    unnamed d = record d { dentries = without_name p n d.dentries }

    abbrev released : Bool → Db → Db
    released last d = if last then gone (unnamed d) else set_columns ino (set_ctime now) (unnamed d)

    abbrev is_last : Db → Bool
    is_last d = count_names ino (without_name p n d.dentries) == 0

    -- What unlink makes of the tables.
    abbrev unlinked : Db → Db
    unlinked d = set_columns p (set_times now) (released (is_last d) d)

    released_lem :
        (d : Db) (b : Bool)
        → d.xattrs ≡ some rows
        → Succeeds
            (Is (unnamed d))
            (if b then delete_inode ino else execute (set_columns ino (set_ctime now)))
            (λ _. Is (released b d))
    released_lem d true x = delete_inode-gone (unnamed d) x
    released_lem d false x = Succeeds-execute _ λ db e. ap (set_columns ino (set_ctime now)) e

    pub unlink_dentry-unlinked :
        (d : Db)
        → d.xattrs ≡ some rows
        → Succeeds (Is d) (unlink_dentry p n ino now) (λ _. Is (unlinked d))
    unfolding unlink_dentry
    unlink_dentry-unlinked d x =
        Succeeds-bind {Q = λ _. Is (unnamed d)} (Succeeds-execute _ λ db e. ap unnamed e) λ _.
          Succeeds-bind
            {Q = λ r db. Is (unnamed d) db × (r ≡ count_names ino (without_name p n d.dentries))}
            (Succeeds-query _ λ db e. (e, ap (λ b. count_names ino b.dentries) e))
            λ r. Succeeds-given λ k. rw k (
              Succeeds-bind (released_lem d (is_last d) x)
                λ _. Succeeds-execute _ λ db e. ap (set_columns p (set_times now)) e)

-- After `unlink` of the name `n` in `p`, which named `ino`.
pub record Unlinked (p : ℕ) (n : String) (ino : ℕ) (d db : Db) : Type 0 where
  pub removed : find_name p n db.dentries ≡ none
  pub other_names :
      (q : ℕ) (m : String) → (p ≡ q → n ≢ m) → find_name q m db.dentries ≡ find_name q m d.dentries
  pub freed :
      count_names ino d.dentries ≡ 1
      → ino ≢ p
      → (find_inode ino db.inodes ≡ none) × ((q : ℕ) → byte_at db.blocks ino q ≡ 0)
  pub still_there : count_names ino d.dentries ≢ 1 → db.blocks ≡ d.blocks
  pub other_content : (j q : ℕ) → ino ≢ j → byte_at db.blocks j q ≡ byte_at d.blocks j q

byte_at-gone :
    (i j q : ℕ) (bs : List Block)
    → byte_at (keep (λ b. not (b.ino == i)) bs) j q ≡ (if j == i then 0 else byte_at bs j q)
unfolding byte_at
byte_at-gone i j q bs = rw (find_block-keep (λ a n. a == i) j (q / block_size) bs) (chosen (j == i))
  where
    chosen :
        (b : Bool)
        → byte (if b then [] else find_block j (q / block_size) bs) (q % block_size)
          ≡ (if b then 0 else byte (find_block j (q / block_size) bs) (q % block_size))
    chosen true = refl
    chosen false = refl

gone_inode : (i : ℕ) (xs : List Inode) → find_inode i (without_inode i xs) ≡ none
unfolding find_inode
gone_inode i [] = refl
gone_inode i (x ∷ xs) = ground (arith, gone_inode i xs)

module _ (p : ℕ) (n : String) (ino now : ℕ) (rows : List Xattr) (d : Db) (u : Unique d.dentries)
    (f : find_name p n d.dentries ≡ some ino) where
  dentries_lem : (b : Bool) → (released ino rows p n now b d).dentries ≡ without_name p n d.dentries
  dentries_lem true = refl
  dentries_lem false = refl

  one_less : suc (count_names ino (without_name p n d.dentries)) ≡ count_names ino d.dentries
  one_less = ground (arith, count_names-without_name p n ino ino d.dentries u f, ==_refl ino)

  last_lem : count_names ino d.dentries ≡ 1 → is_last ino rows p n now d ≡ true
  last_lem e = ground (arith, one_less)

  not_last_lem : count_names ino d.dentries ≢ 1 → is_last ino rows p n now d ≡ false
  not_last_lem e = ground (arith, one_less)

  content_lem :
      (b : Bool) (j q : ℕ)
      → ino ≢ j
      → byte_at (released ino rows p n now b d).blocks j q ≡ byte_at d.blocks j q
  content_lem true j q away = byte_at-gone ino j q d.blocks ∙ ground (arith, (==_iff j ino), away)
  content_lem false j q away = refl

  pub unlinked-Unlinked : Unlinked p n ino d (unlinked ino rows p n now d)
  unlinked-Unlinked = record {
    removed =
        ap (find_name p n) (dentries_lem (is_last ino rows p n now d))
        ∙ find_name-without_name_self p n d.dentries;
    other_names = λ q m h.
        ap (find_name q m) (dentries_lem (is_last ino rows p n now d))
        ∙ find_name-without_other p n q m d.dentries h;
    freed = λ one away. rw (last_lem one) (
      find_inode-update_inode p (set_times now) ino (without_inode ino d.inodes)
          ∙ rw (gone_inode ino d.inodes) (kept_none (p == ino)),
      λ q. byte_at-gone ino ino q d.blocks ∙ rw (==_refl ino) refl,
    );
    still_there = λ more. rw (not_last_lem more) refl;
    other_content = content_lem (is_last ino rows p n now d);
  }
    where
      kept_none : (b : Bool) → (if b then Option.map (set_times now) none else none) ≡ none
      kept_none true = refl
      kept_none false = refl

unlink-Unlinked :
    (fs : CofferFs) (p : ℕ) (n : String) (ino : ℕ) (rows : List Xattr) (d : Db)
    → fs.read_only ≡ false
    → find_name p n d.dentries ≡ some ino
    → Unique d.dentries
    → d.xattrs ≡ some rows
    → Succeeds (Is d) (unlink fs p (utf8 n)) (λ r db. (r ≡ tt) × Unlinked p n ino d db)
unfolding unlink named to_str child_ino
unlink-Unlinked fs p n ino rows d w f u x = Succeeds-bind Succeeds-touch λ _.
    Succeeds-bind (Succeeds-writable fs w) λ _.
      Succeeds-bind {Q = λ t db. Is d db × (t ≡ n)} (Succeeds-or_fail _ _ n refl λ db e. (e, refl))
        λ t. Succeeds-given λ k. rw k (
          Succeeds-transaction always_eio (
            Succeeds-bind {Q = λ o db. Is d db × (o ≡ some ino)}
              (Succeeds-map_err always_eio
                (Succeeds-query _ λ db e. (e, ap (λ b. find_name p n b.dentries) e ∙ f)))
              λ o. Succeeds-given λ k.
                Succeeds-bind {Q = λ i db. Is d db × (i ≡ ino)}
                  (Succeeds-or_fail o enoent ino k λ db e. (e, refl))
                  λ i. Succeeds-given λ k.
                    Succeeds-bind {Q = λ _. Is d} (Succeeds-now_secs λ t db e. e) λ now. rw k (
                      Succeeds-post
                        (λ r db e. (
                          refl,
                          subst (Unlinked p n ino d) (sym e)
                              (unlinked-Unlinked p n ino now rows d u f),
                        ))
                        (Succeeds-map_err always_eio
                          (unlink_dentry-unlinked ino rows p n now d x)))))

-- Where no statement fails, the mount is writable and the container has the table `xattrs`: `unlink`
-- of a name that is there succeeds and removes that name and no other. Where it was the inode's
-- last name, the inode is gone and none of its bytes is left; otherwise all contents
-- stay. The contents of other files stay in any case.
pub unlink_lem :
    (fs : CofferFs) (p : ℕ) (n : String) (ino : ℕ) (c : Conn)
    → Calm c
    → fs.read_only ≡ false
    → find_name p n c.db.dentries ≡ some ino
    → Unique c.db.dentries
    → HasXattrs c.db
    → ((unlink fs p (utf8 n) c).0 ≡ ok tt) × Unlinked p n ino c.db (unlink fs p (utf8 n) c).1.db
unlink_lem fs p n ino c calm w f u (rows, x) =
    finished tt (Unlinked p n ino c.db) (unlink fs p (utf8 n) c).0 (unlink fs p (utf8 n) c).1
      ((unlink-Unlinked fs p n ino rows c.db w f u x).at c calm refl)
