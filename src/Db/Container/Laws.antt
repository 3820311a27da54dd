-- ===== src/Db/Container/Laws.antt =====
-- What `create_container` of src/db.rs leaves.
use coffer_fs.Base.{
  ℕ, ◌+◌, ◌*◌, ◌<◌, ◌≡◌, refl, ap, drop, subst, ◌∙◌, sym, inl, String, Option, none, some, List, [],
  ◌∷◌, Result, ok, err, arith,
}
use coffer_fs.Db.{Db, Meta, root_ino, kind_dir, block_size}
use coffer_fs.Db.Rows.{find_inode}
use coffer_fs.Db.Check.Invariant.{Inv}
use coffer_fs.Sql.{SqlError, or_zero, Conn, ◌>>=◌, statement}
use coffer_fs.Sql.Calm.{Calm}
use coffer_fs.Sql.Total.{
  Is, Done, Succeeds, Succeeds-pure, Succeeds-bind, Succeeds-execute, Succeeds-statement,
  Succeeds-now_secs, Succeeds-attempt, Succeeds-query, Succeeds-post,
}
use coffer_fs.Db.Container.{
  find_meta, insert_meta, add_xattrs, empty_db, root_columns, insert_root, create_container,
  read_max_size, parsed, found_or_none, schema_version_2,
}
use coffer_fs.Db.Container.Decimal.{u64_mod, to_string, parse_u64-to_string}

-- A new container of this user, with this limit: a root that is a directory for its owner alone, and
-- nothing else.
pub record Fresh (uid gid max_size : ℕ) (db : Db) : Type 0 where
  pub made_at : ℕ
  pub root :
      db.inodes
      ≡ record {
        ino = 1;
        columns = record {
          kind = kind_dir;
          mode = 16384 + 7 * 64;
          uid = uid;
          gid = gid;
          size = 0;
          atime = made_at;
          mtime = made_at;
          ctime = made_at;
          symlink_target = none;
        };
      }
        ∷ []
  pub no_names : db.dentries ≡ []
  pub no_blocks : db.blocks ≡ []
  pub no_attributes : db.xattrs ≡ some []
  pub sound : Inv root_ino db
  pub version : find_meta "schema_version" db.meta ≡ some schema_version_2
  pub limit : find_meta "max_size" db.meta ≡ some (to_string max_size)

setting :
    (key value : String) (d d' : Db)
    → insert_meta key value d ≡ ok (tt, d')
    → Succeeds (Is d) (statement (insert_meta key value)) (λ _. Is d')
setting key value d d' e =
    Succeeds-statement _ λ db p. ((tt, d'), ap (insert_meta key value) p ∙ e, refl)

module _ (uid gid max_size : ℕ) where
  abbrev with_root : ℕ → Db
  with_root now = record empty_db {
    xattrs = some [];
    inodes = record { ino = root_ino; columns = root_columns uid gid now } ∷ [];
    seq = 1;
  }

  abbrev settings : ℕ → List Meta
  settings now =
      record { key = "max_size"; value = to_string max_size }
      ∷ record { key = "block_size"; value = to_string block_size }
      ∷ record { key = "created_at"; value = to_string now }
      ∷ record { key = "schema_version"; value = schema_version_2 }
      ∷ []

  -- After the last `n` of the settings.
  abbrev stage : ℕ → ℕ → Db
  stage now n = record (with_root now) { meta = drop n (settings now) }

  with_settings-Fresh :
      (now : ℕ) → Fresh uid gid max_size (record (with_root now) { meta = settings now })
  unfolding find_meta
  with_settings-Fresh now = record {
    made_at = now;
    root = refl;
    no_names = refl;
    no_blocks = refl;
    no_attributes = refl;
    sound = record {
      unique_names = tt;
      no_dangling = tt;
      all_named = (inl refl, tt);
      not_reused = (omega arith, tt);
    };
    version = refl;
    limit = refl;
  }

  create_container-Fresh :
      Succeeds (Is empty_db) (create_container uid gid max_size) (λ _. Fresh uid gid max_size)
  unfolding create_container insert_meta insert_root add_xattrs find_meta find_inode
  create_container-Fresh = Succeeds-bind {Q = λ _. Is empty_db} (Succeeds-execute _ λ db p. p) λ _.
      Succeeds-bind {Q = λ _. Is (record empty_db { xattrs = some [] })}
        (Succeeds-execute _ λ db p. ap add_xattrs p)
        λ _.
          Succeeds-bind {Q = λ _. Is (record empty_db { xattrs = some [] })}
            (Succeeds-now_secs λ t db p. p)
            λ now.
              Succeeds-bind {Q = λ _. Is (with_root now)}
                (Succeeds-statement _ λ db p.
                  ((tt, with_root now), ap (insert_root (root_columns uid gid now)) p, refl))
                λ _.
                  Succeeds-bind
                    (setting "schema_version" schema_version_2 (with_root now) (stage now 3) refl)
                    λ _.
                      Succeeds-bind
                        (setting "created_at" (to_string now) (stage now 3) (stage now 2) refl)
                        λ _.
                          Succeeds-bind
                            (setting "block_size" (to_string block_size) (stage now 2) (stage now 1)
                              refl)
                            λ _.
                              Succeeds-post
                                (λ _ db e.
                                  subst (Fresh uid gid max_size) (sym e) (with_settings-Fresh now))
                                (setting "max_size" (to_string max_size) (stage now 1) (stage now 0)
                                  refl)

read_max_size-Fresh :
    (uid gid max_size : ℕ)
    → max_size < u64_mod
    → Succeeds
        (Fresh uid gid max_size)
        read_max_size
        (λ n db. (n ≡ max_size) × Fresh uid gid max_size db)
unfolding read_max_size
read_max_size-Fresh uid gid max_size h =
    Succeeds-bind
      {Q = λ r db.
        (v : Option String) × (r ≡ ok v)
        × (Fresh uid gid max_size db × (v ≡ some (to_string max_size)))}
      (Succeeds-attempt (
        Succeeds-query {Q = λ v db. Fresh uid gid max_size db × (v ≡ some (to_string max_size))} _
          λ db p. (p, p.limit)))
      λ r. Succeeds-pure _ λ db q. (
        ap (λ o. or_zero (parsed (found_or_none o))) q.1
            ∙ ap (λ o. or_zero (parsed o)) q.2.1
            ∙ ap or_zero (parse_u64-to_string max_size h),
        q.2.0,
      )

finished :
    (n : ℕ) (Q : Db → Type 0) (r : Result SqlError ℕ) (c : Conn)
    → Done (λ x db. (x ≡ n) × Q db) r c
    → (r ≡ ok n) × Q c.db
finished n Q (ok x) c h = (ap ok h.0.0, h.0.1)
finished n Q (err e) c h = absurd h

-- Where no statement fails, `create_container` on an empty file leaves one inode, the root, a
-- directory of mode 0700 that belongs to the given user and group, and no name, block or attribute;
-- the container is consistent, of format version 2 and has the table `xattrs`. `read_max_size` then
-- answers with the limit that was asked for, any u64.
pub create_container-read_max_size :
    (uid gid max_size : ℕ) (c : Conn)
    → Calm c
    → c.db ≡ empty_db
    → max_size < u64_mod
    → (((create_container uid gid max_size >>= λ _. read_max_size) c).0 ≡ ok max_size)
      × Fresh uid gid max_size ((create_container uid gid max_size >>= λ _. read_max_size) c).1.db
create_container-read_max_size uid gid max_size c calm e h =
    finished max_size (Fresh uid gid max_size) _ _ (
      (Succeeds-bind (create_container-Fresh uid gid max_size)
          λ _. read_max_size-Fresh uid gid max_size h).at
        c calm e)
