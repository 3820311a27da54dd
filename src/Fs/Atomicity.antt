-- ===== src/Fs/Atomicity.antt =====
-- A request of src/fs.rs that fails leaves the tables as they were: `transaction`, which every
-- handler that writes runs in, is rolled back on each early return.
use coffer_fs.Base.{
  ℕ, ◌≡◌, refl, inr, Bool, true, false, Option, none, some, List, Result, ok, err, ◌⊎◌,
}
use coffer_fs.Db.{Db}
use coffer_fs.Sql.{
  SqlError, Errno, eio, Conn, Run, pure, ◌>>=◌, or_fail, always_eio, continue, rename_error,
}
use coffer_fs.Sql.Rules.{Keeps-if, Keeps-fail, Keeps-pure}
use coffer_fs.Sql.Atomic.{
  Atomic, Undone, Atomic-then, Atomic-Quiet, Atomic-map, Atomic-read_back, Atomic-transaction,
}
use coffer_fs.Fs.Schema.{CofferFs, InodeRow, OsStr, touch, row_by_ino}
use coffer_fs.Fs.Attr.{to_attr, attr_or_eio, writable, named}
use coffer_fs.Fs.Content.Calls.{SetAttr, write, setattr}
use coffer_fs.Fs.Entries.{RenameFlags, mkdir, unlink, rmdir, symlink, create, link, rename}
use coffer_fs.Fs.Xattrs.{setxattr, removexattr}
use coffer_fs.Fs.Serve.{Request, serve}
use coffer_fs.Fs.Consistency.Frame.{Keeps-touch, Keeps-writable, Keeps-named}
use coffer_fs.Fs.Consistency.Rest.{
  lookup-Keeps, getattr-Keeps, readlink-Keeps, read-Keeps, open_file-Keeps, accept-Keeps,
  opendir-Keeps, readdir-Keeps, statfs-Keeps, getxattr-Keeps, listxattr-Keeps,
}

-- The row that a reply needs is read after the commit.
unfoldable pub reads_back : Request → Bool
reads_back (Request.setattrs uid ino s) = true
reads_back (Request.mkdirs parent name mode) = true
reads_back (Request.symlinks parent name to) = true
reads_back (Request.creates parent name mode) = true
reads_back _ = false

-- The error of a read after the commit.
abbrev pub Late : Bool → Errno → Type 0
Late late e = (late ≡ true) × (e ≡ eio)

module _ (ino : ℕ) (d : Db) where
  answered :
      (r : Result SqlError (Option InodeRow)) (c : Conn)
      → Undone
          (Late true)
          d
          (continue
            (rename_error always_eio r)
            (λ found. or_fail found eio >>= λ row. pure (to_attr ino row))
            c).0
          (continue
            (rename_error always_eio r)
            (λ found. or_fail found eio >>= λ row. pure (to_attr ino row))
            c).1.db
  unfolding ◌>>=◌
  answered (ok none) c = inr (refl, refl)
  answered (ok (some row)) c = tt
  answered (err e) c = inr (refl, refl)

attr_or_eio-Late :
    (ino : ℕ) (d : Db) (c : Conn)
    → Undone (Late true) d (attr_or_eio ino c).0 (attr_or_eio ino c).1.db
unfolding attr_or_eio ◌>>=◌
attr_or_eio-Late ino d c = answered ino d (row_by_ino ino c).0 (row_by_ino ino c).1

module _ {X : Errno → Type 0} (fs : CofferFs) where
  -- The guards of a handler that writes.
  started :
      {A : Type 0} {k : Unit {0} → Run Errno A}
      → ((u : Unit {0}) → Atomic X (k u))
      → Atomic X (touch >>= λ _. writable fs >>= k)
  started h = Atomic-then (λ d. Keeps-touch) λ _. Atomic-then (λ d. Keeps-writable fs) h

  started_named :
      {A : Type 0} (name : OsStr) {k : _ → Run Errno A}
      → ((text : _) → Atomic X (k text))
      → Atomic X (touch >>= λ _. writable fs >>= λ _. named name >>= k)
  started_named name h = started λ _. Atomic-then (λ d. Keeps-named name) h

  unlink-Atomic : (p : ℕ) (name : OsStr) → Atomic X (unlink fs p name)
  unfolding unlink
  unlink-Atomic p name = started_named name λ text. Atomic-transaction _ _

  rmdir-Atomic : (p : ℕ) (name : OsStr) → Atomic X (rmdir fs p name)
  unfolding rmdir
  rmdir-Atomic p name = started_named name λ text. Atomic-transaction _ _

  link-Atomic : (ino p : ℕ) (name : OsStr) → Atomic X (link fs ino p name)
  unfolding link
  link-Atomic ino p name = started_named name λ text. Atomic-transaction _ _

  rename-Atomic :
      (p : ℕ) (n : OsStr) (p' : ℕ) (n' : OsStr) (flags : RenameFlags)
      → Atomic X (rename fs p n p' n' flags)
  unfolding rename
  rename-Atomic p n p' n' flags =
      started_named n λ from. Atomic-then (λ d. Keeps-named n') λ to. Atomic-transaction _ _

  write-Atomic :
      (ino offset : ℕ) (bytes : List ℕ) (kill : Bool) → Atomic X (write fs ino offset bytes kill)
  unfolding write
  write-Atomic ino offset bytes kill = started λ _.
      Atomic-then (λ d. Keeps-if _ _ _ (Keeps-fail _) (Keeps-pure tt)) λ _. Atomic-transaction _ _

  setxattr-Atomic :
      (ino : ℕ) (name : OsStr) (value : List ℕ) (flags : ℕ)
      → Atomic X (setxattr fs ino name value flags)
  unfolding setxattr
  setxattr-Atomic ino name value flags = started λ _.
      Atomic-then (λ d. Keeps-if _ _ _ (Keeps-pure tt) (Keeps-fail _))
        λ _.
          Atomic-then (λ d. Keeps-named name)
            λ text.
              Atomic-then (λ d. Keeps-if _ _ _ (Keeps-fail _) (Keeps-pure tt))
                λ _.
                  Atomic-then (λ d. Keeps-if _ _ _ (Keeps-fail _) (Keeps-pure tt))
                    λ _. Atomic-transaction _ _

  removexattr-Atomic : (ino : ℕ) (name : OsStr) → Atomic X (removexattr fs ino name)
  unfolding removexattr
  removexattr-Atomic ino name = started_named name λ text.
      Atomic-then (λ d. Keeps-if _ _ _ (Keeps-pure tt) (Keeps-fail _)) λ _. Atomic-transaction _ _

module _ (fs : CofferFs) where
  mkdir-Atomic : (p : ℕ) (name : OsStr) (mode : ℕ) → Atomic (Late true) (mkdir fs p name mode)
  unfolding mkdir
  mkdir-Atomic p name mode =
      started_named fs name
        λ text. Atomic-read_back attr_or_eio (Atomic-transaction _ _) attr_or_eio-Late

  symlink-Atomic : (p : ℕ) (name to : OsStr) → Atomic (Late true) (symlink fs p name to)
  unfolding symlink
  symlink-Atomic p name to = started_named fs name λ text.
      Atomic-then (λ d. Keeps-named to)
        λ target. Atomic-read_back attr_or_eio (Atomic-transaction _ _) attr_or_eio-Late

  create-Atomic : (p : ℕ) (name : OsStr) (mode : ℕ) → Atomic (Late true) (create fs p name mode)
  unfolding create
  create-Atomic p name mode =
      started_named fs name
        λ text. Atomic-read_back attr_or_eio (Atomic-transaction _ _) attr_or_eio-Late

  setattr-Atomic : (uid ino : ℕ) (s : SetAttr) → Atomic (Late true) (setattr fs uid ino s)
  unfolding setattr
  setattr-Atomic uid ino s = started fs λ _.
      Atomic-read_back (λ _. attr_or_eio ino) (Atomic-transaction _ _) λ _. attr_or_eio-Late ino

  serve-Undone : (r : Request) → Atomic (Late (reads_back r)) (serve fs r)
  unfolding serve reads_back
  serve-Undone (Request.lookups p name) = Atomic-map _ (Atomic-Quiet λ d. lookup-Keeps fs p name)
  serve-Undone (Request.getattrs ino) = Atomic-map _ (Atomic-Quiet λ d. getattr-Keeps fs ino)
  serve-Undone (Request.setattrs uid ino s) = Atomic-map _ (setattr-Atomic uid ino s)
  serve-Undone (Request.readlinks ino) = Atomic-map _ (Atomic-Quiet λ d. readlink-Keeps fs ino)
  serve-Undone (Request.mkdirs p name mode) = Atomic-map _ (mkdir-Atomic p name mode)
  serve-Undone (Request.unlinks p name) = Atomic-map _ (unlink-Atomic fs p name)
  serve-Undone (Request.rmdirs p name) = Atomic-map _ (rmdir-Atomic fs p name)
  serve-Undone (Request.symlinks p name to) = Atomic-map _ (symlink-Atomic p name to)
  serve-Undone (Request.renames p n p' n' flags) = Atomic-map _ (rename-Atomic fs p n p' n' flags)
  serve-Undone (Request.opens ino flags) =
      Atomic-map _ (Atomic-Quiet λ d. open_file-Keeps fs ino flags)
  serve-Undone (Request.creates p name mode) = Atomic-map _ (create-Atomic p name mode)
  serve-Undone (Request.reads ino offset size) =
      Atomic-map _ (Atomic-Quiet λ d. read-Keeps fs ino offset size)
  serve-Undone (Request.writes ino offset bytes kill) =
      Atomic-map _ (write-Atomic fs ino offset bytes kill)
  serve-Undone Request.flushes = Atomic-map _ (Atomic-Quiet λ d. accept-Keeps fs)
  serve-Undone Request.fsyncs = Atomic-map _ (Atomic-Quiet λ d. accept-Keeps fs)
  serve-Undone Request.releases = Atomic-map _ (Atomic-Quiet λ d. accept-Keeps fs)
  serve-Undone Request.accesses = Atomic-map _ (Atomic-Quiet λ d. accept-Keeps fs)
  serve-Undone Request.opendirs = Atomic-map _ (Atomic-Quiet λ d. opendir-Keeps fs)
  serve-Undone (Request.readdirs full ino offset) =
      Atomic-map _ (Atomic-Quiet λ d. readdir-Keeps fs full ino offset)
  serve-Undone (Request.statfss host) = Atomic-map _ (Atomic-Quiet λ d. statfs-Keeps fs host)
  serve-Undone (Request.links ino p name) = Atomic-map _ (link-Atomic fs ino p name)
  serve-Undone (Request.setxattrs ino name value flags) =
      Atomic-map _ (setxattr-Atomic fs ino name value flags)
  serve-Undone (Request.getxattrs ino name size) =
      Atomic-map _ (Atomic-Quiet λ d. getxattr-Keeps fs ino name size)
  serve-Undone (Request.listxattrs ino size) =
      Atomic-map _ (Atomic-Quiet λ d. listxattr-Keeps fs ino size)
  serve-Undone (Request.removexattrs ino name) = Atomic-map _ (removexattr-Atomic fs ino name)

failed :
    (X : Errno → Type 0) {A : Type 0} (r : Result Errno A) (e : Errno) (before after : Db)
    → r ≡ err e
    → Undone X before r after
    → Undone {A = A} X before (err e) after
failed X r e before after k u = rw k at u

-- Whatever statement fails: a request that is answered with an error leaves all tables as they
-- were, or it is one of setattr, mkdir, symlink and create, and the error is EIO.
pub serve-Atomic :
    (fs : CofferFs) (r : Request) (c : Conn) (e : Errno)
    → (serve fs r c).0 ≡ err e
    → ((serve fs r c).1.db ≡ c.db) ⊎ ((reads_back r ≡ true) × (e ≡ eio))
serve-Atomic fs r c e k =
    failed (Late (reads_back r)) (serve fs r c).0 e c.db (serve fs r c).1.db k
      ((serve-Undone fs r).at c)
