-- ===== src/Fs/Consistency/Frame.antt =====
-- The parts of a handler that change columns, blocks and attributes only.
use coffer_fs.Base.{
  ℕ, zero, suc, Bool, true, Option, none, some, List, [], ◌∷◌, arith, inl, inr, Option-cases,
  String,
}
use coffer_fs.Db.{Db, Columns, Block, Xattr}
use coffer_fs.Sql.{SqlError, Run, always_eio, execute, statement, ◌>>=◌}
use coffer_fs.Sql.Rules.{
  Success, Keeps, Keeps-pure, Keeps-fail, Keeps-or_fail, Keeps-if, Keeps-attempt, Keeps-map_err,
  Keeps-bind, Keeps-now_secs, Keeps-query, Keeps-execute, Keeps-statement,
}
use coffer_fs.Fs.Schema.{
  CofferFs, OsStr, to_str, InodeRow, touch, row_by_ino, child_ino, get_block, put_block,
  current_total_size, total_size,
}
use coffer_fs.Fs.Inodes.{
  set_columns, drop_setuid, drop_setgid, delete_xattrs, kill_priv, truncate_inode,
}
use coffer_fs.Fs.Attr.{attr_or_eio, errno_for, writable, named}
use coffer_fs.Fs.Content.Loops.{write_loop, read_loop}
use coffer_fs.Fs.Content.Calls.{
  TimeOrNow, specific, now_time, time_or_now_to_secs, set_mode, set_owner, set_size, set_access,
  drop_priv, check_quota, SetAttr, succeeds,
}

-- What does not look at columns, blocks and attributes.
pub record IsFramed (P : Db → Type 0) : Type 0 where
  pub columns : (i : ℕ) (f : Columns → Columns) (db : Db) → P db → P (set_columns i f db)
  pub blocks : (bs : List Block) (db : Db) → P db → P (record db { blocks = bs })
  pub xattrs : (xs : List Xattr) (db : Db) → P db → P (record db { xattrs = some xs })

module _ {P : Db → Type 0} where
  pub Keeps-touch : {E : Type 0} → Keeps P (touch {E = E})
  unfolding touch ◌>>=◌
  Keeps-touch = record { at = λ c p. p }

  pub Keeps-writable : (fs : CofferFs) → Keeps P (writable fs)
  unfolding writable
  Keeps-writable fs = Keeps-if _ _ _ (Keeps-fail _) (Keeps-pure tt)

  pub Keeps-named : (name : OsStr) → Keeps P (named name)
  unfolding named
  Keeps-named name = Keeps-or_fail (to_str name) _

  pub Keeps-row_by_ino : (ino : ℕ) → Keeps P (row_by_ino ino)
  unfolding row_by_ino
  Keeps-row_by_ino ino = Keeps-query _

  pub Keeps-child_ino : (parent : ℕ) (name : String) → Keeps P (child_ino parent name)
  unfolding child_ino
  Keeps-child_ino parent name = Keeps-query _

  pub Keeps-get_block : (ino n : ℕ) → Keeps P (get_block ino n)
  unfolding get_block
  Keeps-get_block ino n = Keeps-query _

  pub Keeps-attr_or_eio : (ino : ℕ) → Keeps P (attr_or_eio ino)
  unfolding attr_or_eio
  Keeps-attr_or_eio ino =
      Keeps-bind (Keeps-map_err always_eio (Keeps-row_by_ino ino))
        λ found. Keeps-bind (Keeps-or_fail found _) λ row. Keeps-pure _

  pub Keeps-current_total_size : Keeps P current_total_size
  unfolding current_total_size
  Keeps-current_total_size = Keeps-statement total_size (λ db p. summed db p)
    where
      summed : (db : Db) → P db → Success (λ x _. P x.1) (total_size db) db
      summed db p = ground arith

  pub Keeps-check_quota :
      (fs : CofferFs) (asked : Bool) (growth : ℕ) → Keeps P (check_quota fs asked growth)
  unfolding check_quota
  Keeps-check_quota fs asked growth =
      Keeps-if _ _ _
        (Keeps-bind (Keeps-attempt Keeps-current_total_size)
          λ used. Keeps-if _ _ _ (Keeps-fail _) (Keeps-pure tt))
        (Keeps-pure tt)

  pub Keeps-read_loop :
      (fuel ino pos stop : ℕ) (out : List ℕ) → Keeps P (read_loop fuel ino pos stop out)
  unfolding read_loop
  Keeps-read_loop zero ino pos stop out = Keeps-pure out
  Keeps-read_loop (suc fuel) ino pos stop out =
      Keeps-if _ _ _
        (Keeps-bind (Keeps-attempt (Keeps-get_block ino _))
          λ got. Keeps-read_loop fuel ino _ stop _)
        (Keeps-pure out)

  pub Keeps-time_or_now_to_secs : (t : Option TimeOrNow) → Keeps P (time_or_now_to_secs t)
  unfolding time_or_now_to_secs
  Keeps-time_or_now_to_secs none = Keeps-pure _
  Keeps-time_or_now_to_secs (some (specific none)) = Keeps-pure _
  Keeps-time_or_now_to_secs (some (specific (some t))) = Keeps-pure _
  Keeps-time_or_now_to_secs (some now_time) = Keeps-bind Keeps-now_secs λ t. Keeps-pure _

module _ {P : Db → Type 0} where
  succeeds_lem : {m : Run SqlError (Unit {0})} → Keeps P m → Keeps P (succeeds m)
  succeeds_lem h = Keeps-bind (Keeps-attempt h) λ r. Keeps-pure _

module _ {P : Db → Type 0}
    (blocks : (bs : List Block) (db : Db) → P db → P (record db { blocks = bs })) where
  pub Keeps-put_block : (ino n : ℕ) (content : List ℕ) → Keeps P (put_block ino n content)
  unfolding put_block
  Keeps-put_block ino n content = Keeps-execute _ (λ db. blocks _ db)

  pub Keeps-write_loop :
      (fuel ino pos : ℕ) (bytes : List ℕ) → Keeps P (write_loop fuel ino pos bytes)
  unfolding write_loop
  Keeps-write_loop fuel ino pos [] = Keeps-pure tt
  Keeps-write_loop zero ino pos (x ∷ xs) = Keeps-pure tt
  Keeps-write_loop (suc fuel) ino pos (x ∷ xs) =
      Keeps-bind (Keeps-map_err always_eio (Keeps-get_block ino _)) λ buf.
        Keeps-bind (Keeps-map_err errno_for (Keeps-put_block ino _ _))
          λ _. Keeps-write_loop fuel ino _ _

module _ {P : Db → Type 0}
    (xattrs : (xs : List Xattr) (db : Db) → P db → P (record db { xattrs = some xs })) where
  Success-delete_xattrs :
      (doomed : Xattr → Bool) (db : Db) → P db → Success (λ x _. P x.1) (delete_xattrs doomed db) db
  unfolding delete_xattrs
  Success-delete_xattrs doomed db p = elim (Option-cases db.xattrs) [
    | inl e ↦ rw (e, delete_xattrs) tt
    | inr (rows, e) ↦ rw (e, delete_xattrs) (xattrs _ db p)
  ]

  pub Keeps-delete_xattrs : (doomed : Xattr → Bool) → Keeps P (statement (delete_xattrs doomed))
  Keeps-delete_xattrs doomed = Keeps-statement _ (Success-delete_xattrs doomed)

  -- `kill_priv` changes the mode and the attributes.
  pub Keeps-kill_priv :
      (ino : ℕ)
      → ((db : Db) → P db → P (set_columns ino drop_setuid db))
      → ((db : Db) → P db → P (set_columns ino drop_setgid db))
      → Keeps P (kill_priv ino)
  unfolding kill_priv
  Keeps-kill_priv ino uid gid =
      Keeps-bind (Keeps-execute _ uid)
        λ _. Keeps-bind (Keeps-execute _ gid) λ _. Keeps-delete_xattrs _

module _ {P : Db → Type 0} (framed : IsFramed P) where
  pub Keeps-set_columns : (i : ℕ) (f : Columns → Columns) → Keeps P (execute (set_columns i f))
  Keeps-set_columns i f = Keeps-execute _ (framed.columns i f)

  pub Keeps-kill_priv_framed : (ino : ℕ) → Keeps P (kill_priv ino)
  Keeps-kill_priv_framed ino =
      Keeps-kill_priv framed.xattrs ino (framed.columns ino drop_setuid)
        (framed.columns ino drop_setgid)

  pub Keeps-truncate_inode : (ino length : ℕ) → Keeps P (truncate_inode ino length)
  unfolding truncate_inode
  Keeps-truncate_inode ino length = Keeps-bind (Keeps-execute _ (λ db. framed.blocks _ db)) λ _.
      Keeps-bind
        (Keeps-if _ _ _
          (Keeps-bind (Keeps-get_block ino _) λ block. Keeps-put_block framed.blocks ino _ _)
          (Keeps-execute _ (λ db. framed.blocks _ db)))
        λ _. Keeps-bind Keeps-now_secs λ now. Keeps-set_columns ino _

  module _ (fs : CofferFs) (ino now : ℕ) (row : InodeRow) (s : SetAttr) where
    pub Keeps-set_mode : (mode : Option ℕ) → Keeps P (set_mode ino row now mode)
    unfolding set_mode
    Keeps-set_mode none = Keeps-pure true
    Keeps-set_mode (some m) = succeeds_lem (Keeps-set_columns ino _)

    pub Keeps-set_owner : Keeps P (set_owner ino row now s.uid s.gid)
    unfolding set_owner
    Keeps-set_owner = Keeps-if _ _ _ (succeeds_lem (Keeps-set_columns ino _)) (Keeps-pure true)

    pub Keeps-set_size : (size : Option ℕ) → Keeps P (set_size fs ino row size)
    unfolding set_size
    Keeps-set_size none = Keeps-pure true
    Keeps-set_size (some n) =
        Keeps-bind (Keeps-if _ _ _ (Keeps-fail _) (Keeps-pure tt))
          λ _. Keeps-bind (Keeps-check_quota fs _ _) λ _. succeeds_lem (Keeps-truncate_inode ino n)

    pub Keeps-set_access : Keeps P (set_access ino row s.atime s.mtime)
    unfolding set_access
    Keeps-set_access =
        Keeps-if _ _ _
          (Keeps-bind (Keeps-time_or_now_to_secs s.atime) λ a.
            Keeps-bind (Keeps-time_or_now_to_secs s.mtime)
              λ m. succeeds_lem (Keeps-set_columns ino _))
          (Keeps-pure true)

    pub Keeps-drop_priv : (req_uid : ℕ) → Keeps P (drop_priv req_uid ino row s)
    unfolding drop_priv
    Keeps-drop_priv req_uid =
        Keeps-if _ _ _ (succeeds_lem (Keeps-kill_priv_framed ino)) (Keeps-pure true)
