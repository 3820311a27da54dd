-- ===== src/Fs/Entries/Rename.antt =====
-- `rename` of src/fs.rs to a free name, where no statement fails.
use coffer_fs.Base.{
  ℕ, ◌≡◌, ◌≢◌, refl, ap, ◌∙◌, sym, String, Bool, true, false, ◌&&◌, none, some, List, [], ◌∷◌,
  arith, ok, eq_iff, if◌then◌else◌, subst, ==_refl,
}
use coffer_fs.Db.{Db, Dentry}
use coffer_fs.Db.Rows.{find_name, is_name, move_name, count_names}
use coffer_fs.Db.Names.{count_names-move_name, other_name}
use coffer_fs.Sql.{
  enoent, einval, eexist, Conn, always_eio, pure, fail, ◌>>=◌, ◌>>◌, map_err, execute, statement,
  now_secs,
}
use coffer_fs.Sql.Calm.{Calm}
use coffer_fs.Sql.Total.{
  Is, Succeeds, Succeeds-pure, Succeeds-or_fail, Succeeds-bind, Succeeds-query, Succeeds-execute,
  Succeeds-statement, Succeeds-now_secs, Succeeds-map_err, Succeeds-transaction, Succeeds-given,
}
use coffer_fs.Fs.Schema.{CofferFs, utf8, to_str, child_ino}
use coffer_fs.Fs.Inodes.{set_columns, set_times}
use coffer_fs.Fs.Attr.{named}
use coffer_fs.Fs.Entries.{RenameFlags, rename, move_dentry, is_taken, replace_target}
use coffer_fs.Fs.Content.Succeeding.{Succeeds-touch, Succeeds-writable, finished}

pub new_name :
    (p : ℕ) (n : String) (i : ℕ) → is_name p n (record { parent = p; name = n; ino = i }) ≡ true
unfolding is_name
new_name p n i = rw (==_refl p, (eq_iff n n).1 refl) refl

module _ (p' : ℕ) (n' : String) (p : ℕ) (n : String) where
  find_name-move_name :
      (ino : ℕ) (ds : List Dentry)
      → find_name p n ds ≡ some ino
      → find_name p' n' ds ≡ none
      → find_name p' n' (move_name p' n' p n ds) ≡ some ino
  unfolding find_name move_name
  find_name-move_name ino [] e f = cc
  find_name-move_name ino (d ∷ ds) e f =
      ground (arith, find_name-move_name ino ds, new_name p' n' d.ino)

  find_name-moved_other :
      (q : ℕ) (m : String) (ds : List Dentry)
      → (p ≡ q → n ≢ m)
      → (p' ≡ q → n' ≢ m)
      → find_name q m (move_name p' n' p n ds) ≡ find_name q m ds
  unfolding find_name move_name
  find_name-moved_other q m [] h k = refl
  find_name-moved_other q m (d ∷ ds) h k = ground (
    arith,
    find_name-moved_other q m ds h k,
    other_name p n q m d h,
    other_name p' n' q m (record { parent = p'; name = n'; ino = d.ino }) k (new_name p' n' d.ino),
  )

  find_name-moved_away :
      (ds : List Dentry) → (p' ≡ p → n' ≢ n) → find_name p n (move_name p' n' p n ds) ≡ none
  unfolding find_name move_name
  find_name-moved_away [] k = refl
  find_name-moved_away (d ∷ ds) k = ground (
    arith,
    find_name-moved_away ds k,
    other_name p' n' p n (record { parent = p'; name = n'; ino = d.ino }) k (new_name p' n' d.ino),
  )

-- After `rename` of `n` in `p`, which named `ino`, to `n'` in `p'`.
pub record Renamed (p : ℕ) (n : String) (p' : ℕ) (n' : String) (ino : ℕ) (d db : Db) : Type 0 where
  pub new_place : find_name p' n' db.dentries ≡ some ino
  pub old_place : find_name p n db.dentries ≡ none
  pub other_names :
      (q : ℕ) (m : String)
      → (p ≡ q → n ≢ m)
      → (p' ≡ q → n' ≢ m)
      → find_name q m db.dentries ≡ find_name q m d.dentries
  pub links : (j : ℕ) → count_names j db.dentries ≡ count_names j d.dentries
  pub content : db.blocks ≡ d.blocks

module _ (p : ℕ) (n : String) (p' : ℕ) (n' : String) (ino : ℕ) (d : Db)
    (f : find_name p n d.dentries ≡ some ino) (g : find_name p' n' d.dentries ≡ none) where
  abbrev moved_db : Db
  moved_db = record d { dentries = move_name p' n' p n d.dentries }

  abbrev stamped : ℕ → Db → Db
  stamped now db = set_columns p' (set_times now) (set_columns p (set_times now) db)

  -- The two names differ, as one is taken and the other is not.
  different : p' ≡ p → n' ≢ n
  different e k = let h = sym (λ i. find_name (e i) (k i) d.dentries) ∙ g in cc

  moved-Renamed : (now : ℕ) → Renamed p n p' n' ino d (stamped now moved_db)
  moved-Renamed now = record {
    new_place = find_name-move_name p' n' p n ino d.dentries f g;
    old_place = find_name-moved_away p' n' p n d.dentries different;
    other_names = λ q m h k. find_name-moved_other p' n' p n q m d.dentries h k;
    links = λ j. count_names-move_name p' n' p n j d.dentries;
    content = refl;
  }

  moves :
      (now : ℕ)
      → Succeeds (Is d) (map_err always_eio (statement (move_dentry p' n' p n))) (λ _. Is moved_db)
  unfolding move_dentry
  moves now = Succeeds-map_err always_eio (
      Succeeds-statement _
        λ db e. ((tt, moved_db), ap (move_dentry p' n' p n) e ∙ rw (f, g, move_dentry) refl, refl))

  -- What is left to do where nothing stands at the new name.
  moves_free :
      (flags : RenameFlags)
      → Succeeds
          (Is d)
          (do
            if false then fail einval else pure tt
            if flags.noreplace && is_taken none then fail eexist else pure tt
            replace_target ino p' n' none
            now ← now_secs
            map_err always_eio (statement (move_dentry p' n' p n))
            map_err always_eio
                (execute (λ db. set_columns p' (set_times now) (set_columns p (set_times now) db))))
          (λ r db. (r ≡ tt) × Renamed p n p' n' ino d db)
  moves_free flags = Succeeds-bind {Q = λ _. Is d} (Succeeds-pure tt λ db e. e) λ _.
      Succeeds-bind {Q = λ _. Is d} (not_taken flags.noreplace) λ _.
        Succeeds-bind {Q = λ _. Is d} (Succeeds-pure tt λ db e. e) λ _.
          Succeeds-bind {Q = λ _. Is d} (Succeeds-now_secs λ t db e. e) λ now.
            Succeeds-bind (moves now) λ _. Succeeds-map_err always_eio (
              Succeeds-execute _ λ db e. (
                refl,
                subst (Renamed p n p' n' ino d) (sym (ap (stamped now) e)) (moved-Renamed now),
              ))
    where
      not_taken :
          (b : Bool) → Succeeds (Is d) (if b && false then fail eexist else pure tt) (λ _. Is d)
      not_taken true = Succeeds-pure tt λ db e. e
      not_taken false = Succeeds-pure tt λ db e. e

  rename-Renamed :
      (fs : CofferFs) (flags : RenameFlags)
      → fs.read_only ≡ false
      → flags.exchange ≡ false
      → flags.whiteout ≡ false
      → Succeeds
          (Is d)
          (rename fs p (utf8 n) p' (utf8 n') flags)
          (λ r db. (r ≡ tt) × Renamed p n p' n' ino d db)
  unfolding rename named to_str child_ino move_dentry
  rename-Renamed fs flags w x y = Succeeds-bind Succeeds-touch λ _.
      Succeeds-bind (Succeeds-writable fs w) λ _.
        Succeeds-bind {Q = λ t db. Is d db × (t ≡ n)}
          (Succeeds-or_fail _ _ n refl λ db e. (e, refl))
          λ t. Succeeds-given λ k. rw k (
            Succeeds-bind {Q = λ t db. Is d db × (t ≡ n')}
              (Succeeds-or_fail _ _ n' refl λ db e. (e, refl))
              λ t'. Succeeds-given λ k. rw k (
                Succeeds-transaction always_eio (
                  Succeeds-bind {Q = λ o db. Is d db × (o ≡ some ino)}
                    (Succeeds-map_err always_eio
                      (Succeeds-query _ λ db e. (e, ap (λ b. find_name p n b.dentries) e ∙ f)))
                    λ o. Succeeds-given λ k.
                      Succeeds-bind {Q = λ i db. Is d db × (i ≡ ino)}
                        (Succeeds-or_fail o enoent ino k λ db e. (e, refl))
                        λ i. Succeeds-given λ k. rw k (
                          Succeeds-bind {Q = λ o db. Is d db × (o ≡ none)}
                            (Succeeds-map_err always_eio (
                              Succeeds-query _
                                λ db e. (e, ap (λ b. find_name p' n' b.dentries) e ∙ g)))
                            λ target. Succeeds-given λ k. rw (x, y, k) (moves_free flags)))))

-- Where no statement fails and the mount is writable: `rename` of a name that is there to one that is
-- not, with neither RENAME_EXCHANGE nor RENAME_WHITEOUT, succeeds. The new name then leads to the
-- inode and the old one to nothing; every other name, every inode's number of names and all
-- contents are as before.
pub rename_lem :
    (fs : CofferFs) (p : ℕ) (n : String) (p' : ℕ) (n' : String) (flags : RenameFlags) (ino : ℕ)
    (c : Conn)
    → Calm c
    → fs.read_only ≡ false
    → flags.exchange ≡ false
    → flags.whiteout ≡ false
    → find_name p n c.db.dentries ≡ some ino
    → find_name p' n' c.db.dentries ≡ none
    → ((rename fs p (utf8 n) p' (utf8 n') flags c).0 ≡ ok tt)
      × Renamed p n p' n' ino c.db (rename fs p (utf8 n) p' (utf8 n') flags c).1.db
rename_lem fs p n p' n' flags ino c calm w x y f g =
    finished tt (Renamed p n p' n' ino c.db) (rename fs p (utf8 n) p' (utf8 n') flags c).0
      (rename fs p (utf8 n) p' (utf8 n') flags c).1
      ((rename-Renamed p n p' n' ino c.db f g fs flags w x y).at c calm refl)
