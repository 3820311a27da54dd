-- ===== src/Fs/Consistency/Rest.antt =====
-- The calls on content, attributes and listings keep the invariant, whatever statement fails.
use coffer_fs.Base.{
  ℕ, refl, Bool, true, false, Option, List, [], ◌∷◌, Result, ok, err, inl, inr, Option-cases,
  if◌then◌else◌,
}
use coffer_fs.Db.{Db, Xattr}
use coffer_fs.Db.Check.Invariant.{Inv-same}
use coffer_fs.Sql.{SqlError, Run, Errno, pure, fail, always_eio, statement, enoent, enodata}
use coffer_fs.Sql.Rules.{
  Success, Ensures-Keeps, Keeps, Keeps-pure, Keeps-fail, Keeps-lift, Keeps-or_fail, Keeps-if,
  Keeps-attempt, Keeps-map_err, Keeps-bind, Keeps-now_secs, Keeps-query, Keeps-statement,
  Keeps-transaction,
}
use coffer_fs.Fs.Schema.{CofferFs, OsStr}
use coffer_fs.Fs.Inodes.{has_bit}
use coffer_fs.Fs.Attr.{lookup, getattr, readlink, open_file, accept, opendir, errno_for}
use coffer_fs.Fs.Content.Calls.{read, write, setattr, SetAttr}
use coffer_fs.Fs.Listing.{onto_row, stepped, readdir, statfs, Entry, HostStat}
use coffer_fs.Fs.Xattrs.{on_xattrs, check_flags, setxattr, getxattr, listxattr, removexattr}
use coffer_fs.Fs.Consistency.Frame
use coffer_fs.Fs.Consistency.Frame.{
  IsFramed, Keeps-touch, Keeps-writable, Keeps-named, Keeps-row_by_ino, Keeps-child_ino,
  Keeps-attr_or_eio, Keeps-check_quota, Keeps-current_total_size,
}
use coffer_fs.Fs.Consistency.Names.{Sound, Sound-IsFramed}
use coffer_fs.Fs.Consistency.Guards.{guarded, guarded_name}

module _ {P : Db → Type 0} (framed : IsFramed P) (fs : CofferFs) where
  pub write-IsFramed :
      (ino offset : ℕ) (bytes : List ℕ) (kill : Bool) → Keeps P (write fs ino offset bytes kill)
  unfolding write
  write-IsFramed ino offset bytes kill = guarded fs (
      Keeps-bind (Keeps-if _ _ _ (Keeps-fail _) (Keeps-pure tt)) λ _. Keeps-transaction errno_for (
        Ensures-Keeps (
          Keeps-bind (Keeps-map_err always_eio (Keeps-row_by_ino ino)) λ found.
            Keeps-bind (Keeps-or_fail found enoent) λ row.
              Keeps-bind (Keeps-check_quota fs _ _) λ _.
                Keeps-bind (Frame.Keeps-write_loop framed.blocks _ ino offset bytes) λ _.
                  Keeps-bind Keeps-now_secs λ now.
                    Keeps-bind (Keeps-map_err errno_for (Frame.Keeps-set_columns framed ino _)) λ _.
                      Keeps-bind
                        (Keeps-if kill _ _
                          (Keeps-map_err errno_for (Frame.Keeps-kill_priv_framed framed ino))
                          (Keeps-pure tt))
                        λ _. Keeps-pure _)))

module _ (fs : CofferFs) where
  pub write-Keeps :
      (ino offset : ℕ) (bytes : List ℕ) (kill : Bool) → Keeps Sound (write fs ino offset bytes kill)
  write-Keeps = write-IsFramed Sound-IsFramed fs

  pub setattr-Keeps : (req_uid ino : ℕ) (s : SetAttr) → Keeps Sound (setattr fs req_uid ino s)
  unfolding setattr
  setattr-Keeps req_uid ino s = guarded fs (
      Keeps-bind
        (Keeps-transaction always_eio (
          Ensures-Keeps (
            Keeps-bind (Keeps-map_err always_eio (Keeps-row_by_ino ino)) λ found.
              Keeps-bind (Keeps-or_fail found enoent) λ row. Keeps-bind Keeps-now_secs λ now.
                Keeps-bind (Frame.Keeps-set_mode Sound-IsFramed fs ino now row s s.mode) λ ok1.
                  Keeps-bind (Frame.Keeps-set_owner Sound-IsFramed fs ino now row s) λ ok2.
                    Keeps-bind (Frame.Keeps-set_size Sound-IsFramed fs ino now row s s.size) λ ok3.
                      Keeps-bind (Frame.Keeps-set_access Sound-IsFramed fs ino now row s) λ ok4.
                        Keeps-bind (Frame.Keeps-drop_priv Sound-IsFramed fs ino now row s req_uid)
                          λ ok5. Keeps-if _ _ _ (Keeps-pure tt) (Keeps-fail _))))
        λ _. Keeps-attr_or_eio ino)

module _ {P : Db → Type 0} where
  -- A read of the attributes leaves the tables alone.
  seen : {A : Type 0} (f : List Xattr → A) → Keeps P (statement (on_xattrs λ rows. (f rows, rows)))
  unfolding on_xattrs
  seen {A} f = Keeps-statement _ λ db p. read_back db p
    where
      read_back :
          (db : Db) → P db → Success (λ x _. P x.1) (on_xattrs (λ rows. (f rows, rows)) db) db
      read_back db p = elim (Option-cases db.xattrs) [
        | inl e ↦ rw (e, on_xattrs) tt
        | inr (rows, e) ↦ rw (e, on_xattrs) (rw e at p)
      ]

  present : (b : Bool) (e : Errno) → Keeps P (if b then pure tt else fail e)
  present b e = Keeps-if b _ _ (Keeps-pure tt) (Keeps-fail e)

  refused : (b : Bool) (e : Errno) → Keeps P (if b then fail e else pure tt)
  refused b e = Keeps-if b _ _ (Keeps-fail e) (Keeps-pure tt)

  flags_lem : (flags : ℕ) (exists : Bool) → Keeps P (check_flags flags exists)
  unfolding check_flags
  flags_lem flags true = Keeps-if (has_bit flags 1) _ _ (Keeps-fail _) (Keeps-pure tt)
  flags_lem flags false = refused (has_bit flags 2) enodata

module _ {A : Type 0} (f : List Xattr → A × List Xattr) where
  changed_row : (db : Db) → Sound db → Success (λ x _. Sound x.1) (on_xattrs f db) db
  unfolding on_xattrs
  changed_row db v = elim (Option-cases db.xattrs) [
    | inl e ↦ rw (e, on_xattrs) tt
    | inr (rows, e) ↦ rw (e, on_xattrs) (Inv-same refl refl refl v)
  ]

  changed : Keeps Sound (statement (on_xattrs f))
  changed = Keeps-statement _ changed_row

module _ (fs : CofferFs) where
  pub setxattr-Keeps :
      (ino : ℕ) (name : OsStr) (value : List ℕ) (flags : ℕ)
      → Keeps Sound (setxattr fs ino name value flags)
  unfolding setxattr
  setxattr-Keeps ino name value flags = guarded fs (
      Keeps-bind (present fs.has_xattrs _) λ _. Keeps-bind (Keeps-named name) λ text.
        Keeps-bind (refused _ _) λ _. Keeps-bind (refused _ _) λ _. Keeps-transaction always_eio (
          Ensures-Keeps (
            Keeps-bind (Keeps-map_err always_eio (Keeps-row_by_ino ino)) λ found.
              Keeps-bind (Keeps-or_fail found enoent) λ row.
                Keeps-bind (Keeps-map_err always_eio (seen _)) λ old.
                  Keeps-bind (flags_lem flags _) λ _. Keeps-bind Keeps-now_secs λ now.
                    Keeps-bind (Keeps-map_err always_eio (changed _)) λ _.
                      Keeps-map_err always_eio (Frame.Keeps-set_columns Sound-IsFramed ino _))))

  pub removexattr-Keeps : (ino : ℕ) (name : OsStr) → Keeps Sound (removexattr fs ino name)
  unfolding removexattr
  removexattr-Keeps ino name = guarded_name fs name λ text.
      Keeps-bind (present fs.has_xattrs _) λ _. Keeps-transaction always_eio (
        Ensures-Keeps (
          Keeps-bind (Keeps-map_err always_eio (changed _)) λ removed.
            Keeps-bind (present removed _) λ _.
              Keeps-bind Keeps-now_secs
                λ now. Keeps-map_err always_eio (Frame.Keeps-set_columns Sound-IsFramed ino _)))

-- The calls that only read keep every property of the tables.
module _ {P : Db → Type 0} (fs : CofferFs) where
  pub lookup-Keeps : (p : ℕ) (name : OsStr) → Keeps P (lookup p name)
  unfolding lookup
  lookup-Keeps p name = Keeps-bind Keeps-touch λ _. Keeps-bind (Keeps-named name) λ text.
      Keeps-bind (Keeps-map_err always_eio (Keeps-child_ino p text))
        λ found. Keeps-bind (Keeps-or_fail found enoent) λ ino. Keeps-attr_or_eio ino

  pub getattr-Keeps : (ino : ℕ) → Keeps P (getattr ino)
  unfolding getattr
  getattr-Keeps ino = Keeps-bind Keeps-touch λ _.
      Keeps-bind (Keeps-map_err always_eio (Keeps-row_by_ino ino))
        λ found. Keeps-bind (Keeps-or_fail found enoent) λ row. Keeps-pure _

  pub readlink-Keeps : (ino : ℕ) → Keeps P (readlink ino)
  unfolding readlink
  readlink-Keeps ino = Keeps-bind Keeps-touch λ _.
      Keeps-bind (Keeps-map_err always_eio (Keeps-row_by_ino ino))
        λ found. Keeps-bind (Keeps-or_fail found enoent) λ row. Keeps-pure _

  pub read-Keeps : (ino offset size : ℕ) → Keeps P (read ino offset size)
  unfolding read
  read-Keeps ino offset size = Keeps-bind Keeps-touch λ _.
      Keeps-bind (Keeps-map_err always_eio (Keeps-row_by_ino ino)) λ found.
        Keeps-bind (Keeps-or_fail found enoent)
          λ row. Keeps-if _ _ _ (Keeps-pure _) (Frame.Keeps-read_loop _ ino offset _ _)

  pub open_file-Keeps : (ino flags : ℕ) → Keeps P (open_file fs ino flags)
  unfolding open_file
  open_file-Keeps ino flags =
      Keeps-bind Keeps-touch λ _. Keeps-if _ _ _ (Keeps-fail _) (Keeps-pure ino)

  pub accept-Keeps : Keeps P accept
  unfolding accept
  accept-Keeps = Keeps-bind Keeps-touch λ _. Keeps-pure tt

  pub opendir-Keeps : Keeps P opendir
  unfolding opendir
  opendir-Keeps = Keeps-bind Keeps-touch λ _. Keeps-pure 0

  onto_row-Keeps :
      (e : Entry) (rest : Run Errno (List Entry)) (r : Result SqlError (Unit {0}))
      → Keeps P rest
      → Keeps P (onto_row e rest r)
  onto_row-Keeps e rest (ok u) k = Keeps-bind k λ es. Keeps-pure _
  onto_row-Keeps e rest (err x) k = Keeps-pure []

  stepped-Keeps : (es : List Entry) → Keeps P (stepped es)
  unfolding stepped
  stepped-Keeps [] = Keeps-bind (Keeps-attempt (Keeps-query _)) λ r. Keeps-pure []
  stepped-Keeps (e ∷ es) =
      Keeps-bind (Keeps-attempt (Keeps-query _)) λ r. onto_row-Keeps e _ r (stepped-Keeps es)

  pub readdir-Keeps :
      (full : List (ℕ × Entry) → Entry → Bool) (ino offset : ℕ) → Keeps P (readdir full ino offset)
  unfolding readdir
  readdir-Keeps full ino offset = Keeps-bind Keeps-touch λ _.
      Keeps-bind
        (Keeps-if _ _ _ (Keeps-pure _)
          (Keeps-bind (Keeps-map_err _ (Keeps-query _)) λ found. Keeps-or_fail found enoent))
        λ parent.
          Keeps-bind (Keeps-map_err always_eio (Keeps-query _))
            λ found. Keeps-bind (stepped-Keeps found) λ rows. Keeps-pure _

  pub statfs-Keeps : (host : Option HostStat) → Keeps P (statfs fs host)
  unfolding statfs
  statfs-Keeps host =
      Keeps-bind Keeps-touch
        λ _. Keeps-bind (Keeps-attempt Keeps-current_total_size) λ used. Keeps-pure _

  pub getxattr-Keeps : (ino : ℕ) (name : OsStr) (size : ℕ) → Keeps P (getxattr fs ino name size)
  unfolding getxattr
  getxattr-Keeps ino name size = Keeps-bind Keeps-touch λ _. Keeps-bind (Keeps-named name) λ text.
      Keeps-bind (present fs.has_xattrs _) λ _.
        Keeps-bind (Keeps-map_err always_eio (seen _))
          λ found. Keeps-bind (Keeps-or_fail found enodata) λ value. Keeps-lift _

  pub listxattr-Keeps : (ino size : ℕ) → Keeps P (listxattr fs ino size)
  unfolding listxattr
  listxattr-Keeps ino size = Keeps-bind Keeps-touch λ _.
      Keeps-if fs.has_xattrs _ _
        (Keeps-bind (Keeps-map_err always_eio (seen _)) λ names. Keeps-lift _) (Keeps-lift _)
