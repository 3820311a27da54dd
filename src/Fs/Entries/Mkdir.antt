-- ===== src/Fs/Entries/Mkdir.antt =====
-- `mkdir` of src/fs.rs, where no statement fails: the reply, and the tables that it leaves.
use mathlib.Core.Option
use coffer_fs.Base.{
  ℕ, suc, ◌+◌, ◌%◌, ◌≡◌, ◌≢◌, refl, ap, ◌∙◌, sym, String, Bool, true, false, ◌&&◌, Option, none,
  some, ◌∷◌, arith, Result, ok, err, ◌==◌, if◌then◌else◌, subst, inl, inr, Bool-cases, ==_refl,
  ==_iff, str_eq, eq_iff,
}
use coffer_fs.Db.{Db, Columns, kind_dir}
use coffer_fs.Db.Rows.{find_name, find_inode, is_name}
use coffer_fs.Db.Inodes.{find_inode-update_inode}
use coffer_fs.Sql.{Errno, eio, Conn, always_eio}
use coffer_fs.Sql.Calm.{Calm}
use coffer_fs.Sql.Total.{
  Is, Done, Succeeds, Succeeds-pure, Succeeds-or_fail, Succeeds-bind, Succeeds-query,
  Succeeds-execute, Succeeds-statement, Succeeds-now_secs, Succeeds-map_err, Succeeds-transaction,
  Succeeds-given,
}
use coffer_fs.Fs.Schema.{
  CofferFs, InodeRow, utf8, to_str, child_ino, row_by_ino, select_row, nlink_of,
}
use coffer_fs.Fs.Inodes.{
  set_columns, set_times, insert_dentry, link_dentry, insert_inode, insert_child, new_columns,
}
use coffer_fs.Fs.Attr.{named, attr_or_eio, FileAttr, directory, to_attr, file_type_of}
use coffer_fs.Fs.Entries.{mkdir, absent, s_ifdir}
use coffer_fs.Fs.Content.Succeeding.{Succeeds-touch, Succeeds-writable}

module _ (p : ℕ) (n : String) (kind mode uid gid : ℕ) (target : Option String) (d : Db) where
  abbrev cols_at : ℕ → Columns
  cols_at now = new_columns kind mode uid gid target now

  abbrev with_inode : ℕ → Db
  with_inode now = record d {
    inodes = record { ino = suc d.seq; columns = cols_at now } ∷ d.inodes;
    seq = suc d.seq;
  }

  abbrev with_name : ℕ → Db
  with_name now = record (with_inode now) {
    dentries = record { parent = p; name = n; ino = suc d.seq } ∷ d.dentries;
  }

  abbrev with_child : ℕ → Db
  with_child now = set_columns p (set_times now) (with_name now)

  insert_child-with_child :
      find_name p n d.dentries ≡ none
      → Succeeds
          (Is d)
          (insert_child p n kind mode uid gid target)
          (λ i db. (i ≡ suc d.seq) × ((now : ℕ) × (db ≡ with_child now)))
  unfolding insert_child insert_inode link_dentry insert_dentry
  insert_child-with_child f = Succeeds-bind {Q = λ _. Is d} (Succeeds-now_secs λ t db p. p) λ now.
      Succeeds-bind {Q = λ i db. Is (with_inode now) db × (i ≡ suc d.seq)}
        (Succeeds-statement _
          λ db e. ((suc d.seq, with_inode now), ap (insert_inode (cols_at now)) e, (refl, refl)))
        λ i. Succeeds-given λ k. rw k (
          Succeeds-bind {Q = λ _. Is (with_child now)}
            (Succeeds-bind {Q = λ _. Is (with_name now)}
              (Succeeds-statement _ λ db e. (
                (tt, with_name now),
                ap (insert_dentry p n (suc d.seq)) e ∙ rw (f, insert_dentry) refl,
                refl,
              ))
              λ _. Succeeds-execute _ λ db e. ap (set_columns p (set_times now)) e)
            λ _. Succeeds-pure _ λ db e. (refl, (now, e)))

  -- The row of the child: an UPDATE of the parent that hit it would change nothing.
  find_inode-with_child :
      (now : ℕ) → find_inode (suc d.seq) (with_child now).inodes ≡ some (cols_at now)
  unfolding find_inode new_columns
  find_inode-with_child now =
      find_inode-update_inode p (set_times now) (suc d.seq) (with_name now).inodes
      ∙ rw (==_refl (suc d.seq)) (either (p == suc d.seq))
    where
      either :
          (b : Bool)
          → (if b then Option.map (set_times now) (some (cols_at now)) else some (cols_at now))
            ≡ some (cols_at now)
      either true = refl
      either false = refl

  find_inode-other :
      (now j : ℕ)
      → suc d.seq ≢ j
      → p ≢ j
      → find_inode j (with_child now).inodes ≡ find_inode j d.inodes
  unfolding find_inode
  find_inode-other now j h k =
      find_inode-update_inode p (set_times now) j (with_name now).inodes
      ∙ rw (differs p j k, differs (suc d.seq) j h) refl
    where
      differs : (a b : ℕ) → a ≢ b → (a == b) ≡ false
      differs a b h = ground (arith, (==_iff a b))

  find_name-other :
      (now q : ℕ) (m : String)
      → (p ≡ q → n ≢ m)
      → find_name q m (with_child now).dentries ≡ find_name q m d.dentries
  unfolding find_name is_name
  find_name-other now q m h = elim (Bool-cases (p == q && str_eq n m)) [
    | inl e ↦
        (let a : (p == q) ≡ true = ground arith in
          let b : str_eq n m ≡ true = ground arith in
          absurd (h ((==_iff p q).0 a) ((eq_iff n m).0 b)))
    | inr e ↦ rw e refl
  ]

  find_name-new : (now : ℕ) → find_name p n (with_child now).dentries ≡ some (suc d.seq)
  unfolding find_name is_name
  find_name-new now = rw (==_refl p, (eq_iff n n).1 refl) refl

-- After `mkdir` of `n` in `p`, with this reply.
pub record MadeDir (fs : CofferFs) (p : ℕ) (n : String) (mode : ℕ) (d : Db) (attr : FileAttr)
    (db : Db) : Type 0 where
  pub number : attr.ino ≡ suc d.seq
  pub is_dir : attr.kind ≡ directory
  pub perm : attr.perm ≡ mode % 4096
  pub owner : (attr.uid ≡ fs.uid) × (attr.gid ≡ fs.gid)
  pub links : attr.nlink ≡ 2
  pub names_it : find_name p n db.dentries ≡ some attr.ino
  pub other_names :
      (q : ℕ) (m : String) → (p ≡ q → n ≢ m) → find_name q m db.dentries ≡ find_name q m d.dentries
  pub other_rows : (j : ℕ) → suc d.seq ≢ j → p ≢ j → find_inode j db.inodes ≡ find_inode j d.inodes
  pub content : db.blocks ≡ d.blocks

module _ (fs : CofferFs) (p : ℕ) (n : String) (mode : ℕ) (d : Db) where
  abbrev after : ℕ → Db
  after now = with_child p n kind_dir (s_ifdir + mode % 4096) fs.uid fs.gid none d now

  abbrev row_at : ℕ → InodeRow
  row_at now = record {
    columns = new_columns kind_dir (s_ifdir + mode % 4096) fs.uid fs.gid none now;
    nlink = 2;
  }

  after-MadeDir : (now : ℕ) → MadeDir fs p n mode d (to_attr (suc d.seq) (row_at now)) (after now)
  unfolding to_attr new_columns file_type_of
  after-MadeDir now = record {
    number = refl;
    is_dir = refl;
    perm = omega arith;
    owner = (refl, refl);
    links = refl;
    names_it = find_name-new p n kind_dir (s_ifdir + mode % 4096) fs.uid fs.gid none d now;
    other_names = find_name-other p n kind_dir (s_ifdir + mode % 4096) fs.uid fs.gid none d now;
    other_rows = find_inode-other p n kind_dir (s_ifdir + mode % 4096) fs.uid fs.gid none d now;
    content = refl;
  }

  select_row-after : (now : ℕ) → select_row (suc d.seq) (after now) ≡ some (row_at now)
  unfolding select_row nlink_of new_columns
  select_row-after now =
      rw (find_inode-with_child p n kind_dir (s_ifdir + mode % 4096) fs.uid fs.gid none d now) refl

  attr_or_eio-after :
      (now : ℕ)
      → Succeeds
          (Is (after now))
          (attr_or_eio (suc d.seq))
          (λ attr db. MadeDir fs p n mode d attr db)
  unfolding attr_or_eio row_by_ino
  attr_or_eio-after now =
      Succeeds-bind {Q = λ o db. Is (after now) db × (o ≡ some (row_at now))}
        (Succeeds-map_err always_eio (
          Succeeds-query (select_row (suc d.seq))
            λ db e. (e, ap (select_row (suc d.seq)) e ∙ select_row-after now)))
        λ o. Succeeds-given λ k.
          Succeeds-bind {Q = λ r db. Is (after now) db × (r ≡ row_at now)}
            (Succeeds-or_fail o eio (row_at now) k λ db e. (e, refl))
            λ r. Succeeds-given λ k. rw k (
              Succeeds-pure _ λ db e.
                subst (MadeDir fs p n mode d (to_attr (suc d.seq) (row_at now))) (sym e)
                  (after-MadeDir now))

  mkdir-MadeDir :
      fs.read_only ≡ false
      → find_name p n d.dentries ≡ none
      → Succeeds (Is d) (mkdir fs p (utf8 n) mode) (λ attr db. MadeDir fs p n mode d attr db)
  unfolding mkdir named to_str child_ino absent
  mkdir-MadeDir w f = Succeeds-bind Succeeds-touch λ _. Succeeds-bind (Succeeds-writable fs w) λ _.
      Succeeds-bind {Q = λ t db. Is d db × (t ≡ n)} (Succeeds-or_fail _ _ n refl λ db e. (e, refl))
        λ t. Succeeds-given λ k. rw k (
          Succeeds-bind
            (Succeeds-transaction always_eio (
              Succeeds-bind {Q = λ o db. Is d db × (o ≡ none)}
                (Succeeds-map_err always_eio
                  (Succeeds-query _ λ db e. (e, ap (λ b. find_name p n b.dentries) e ∙ f)))
                λ o. Succeeds-given λ k.
                  Succeeds-bind {Q = λ _. Is d} (rw k (Succeeds-pure tt λ db e. e)) λ _.
                    Succeeds-map_err always_eio (
                      insert_child-with_child p n kind_dir (s_ifdir + mode % 4096) fs.uid fs.gid
                        none d f)))
            λ i. record { at = λ c calm q. rw (q.0) ((attr_or_eio-after q.1.0).at c calm q.1.1) })

pub replied :
    (Q : FileAttr → Db → Type 0) (r : Result Errno FileAttr) (c : Conn)
    → Done Q r c
    → (attr : FileAttr) × (r ≡ ok attr) × Q attr c.db
replied Q (ok attr) c h = (attr, refl, h.0)
replied Q (err e) c h = absurd h

-- Where no statement fails and the mount is writable, `mkdir` of a name that is not taken succeeds.
-- The reply shows a directory with the permissions asked for, the owner of the mount, two links and
-- a number above every one that was given out; the name then leads to it. All other names, the
-- rows of the other inodes but the parent, and all contents are as before.
pub mkdir_lem :
    (fs : CofferFs) (p : ℕ) (n : String) (mode : ℕ) (c : Conn)
    → Calm c
    → fs.read_only ≡ false
    → find_name p n c.db.dentries ≡ none
    → (attr : FileAttr) × ((mkdir fs p (utf8 n) mode c).0 ≡ ok attr)
      × MadeDir fs p n mode c.db attr (mkdir fs p (utf8 n) mode c).1.db
mkdir_lem fs p n mode c calm w f =
    replied (λ attr db. MadeDir fs p n mode c.db attr db) (mkdir fs p (utf8 n) mode c).0
      (mkdir fs p (utf8 n) mode c).1 ((mkdir-MadeDir fs p n mode c.db w f).at c calm refl)
