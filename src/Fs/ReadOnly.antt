-- ===== src/Fs/ReadOnly.antt =====
-- A mount of src/fs.rs with `read_only` set: what its sessions may do.
use coffer_fs.Base.{◌≡◌, refl, ◌∙◌, Bool, true, false, List, [], ◌∷◌, err, inl, inr, Bool-cases}
use coffer_fs.Db.{Db}
use coffer_fs.Sql.{Errno, erofs, Conn, Run, pure, ◌>>=◌}
use coffer_fs.Sql.Rules.{Keeps, Keeps-bind, Keeps-pure}
use coffer_fs.Fs.Schema.{CofferFs, touch}
use coffer_fs.Fs.Attr.{writable}
use coffer_fs.Fs.Content.Calls.{write, setattr}
use coffer_fs.Fs.Entries.{mkdir, unlink, rmdir, symlink, create, link, rename}
use coffer_fs.Fs.Xattrs.{setxattr, removexattr}
use coffer_fs.Fs.Serve.{Request, Reply, as_reply, serve, session}
use coffer_fs.Fs.Consistency.Rest.{
  lookup-Keeps, getattr-Keeps, readlink-Keeps, read-Keeps, open_file-Keeps, accept-Keeps,
  opendir-Keeps, readdir-Keeps, statfs-Keeps, getxattr-Keeps, listxattr-Keeps,
}

-- The requests that may change the tables.
unfoldable pub changes : Request → Bool
changes (Request.setattrs uid ino s) = true
changes (Request.mkdirs parent name mode) = true
changes (Request.unlinks parent name) = true
changes (Request.rmdirs parent name) = true
changes (Request.symlinks parent name to) = true
changes (Request.renames p n p' n' flags) = true
changes (Request.creates parent name mode) = true
changes (Request.writes ino offset bytes kill) = true
changes (Request.links ino parent name) = true
changes (Request.setxattrs ino name value flags) = true
changes (Request.removexattrs ino name) = true
changes _ = false

-- A handler that opens with `touch` and the check of `read_only` gets no further.
record Refused {A : Type 0} (m : Run Errno A) : Type 0 where
  refuses : (c : Conn) → ((m c).0 ≡ err erofs) × ((m c).1.db ≡ c.db)

module _ (fs : CofferFs) (ro : fs.read_only ≡ true) where
  refused :
      {A B : Type 0} (f : A → B) (k : Unit {0} → Run Errno A)
      → Refused ((touch >>= λ _. writable fs >>= k) >>= λ a. pure (f a))
  unfolding writable touch ◌>>=◌
  refused f k = record { refuses = λ c. rw ro (refl, refl) }

  serve-Refused : (r : Request) → changes r ≡ true → Refused (serve fs r)
  unfolding serve changes setattr mkdir unlink rmdir symlink rename create write link setxattr
      removexattr
  serve-Refused (Request.setattrs uid ino s) w = refused _ _
  serve-Refused (Request.mkdirs p name mode) w = refused _ _
  serve-Refused (Request.unlinks p name) w = refused _ _
  serve-Refused (Request.rmdirs p name) w = refused _ _
  serve-Refused (Request.symlinks p name to) w = refused _ _
  serve-Refused (Request.renames p n p' n' flags) w = refused _ _
  serve-Refused (Request.creates p name mode) w = refused _ _
  serve-Refused (Request.writes ino offset bytes kill) w = refused _ _
  serve-Refused (Request.links ino p name) w = refused _ _
  serve-Refused (Request.setxattrs ino name value flags) w = refused _ _
  serve-Refused (Request.removexattrs ino name) w = refused _ _
  serve-Refused _ w = cc

  -- On a read-only mount a request that would change the tables is answered with EROFS.
  pub serve-erofs : (r : Request) (c : Conn) → changes r ≡ true → (serve fs r c).0 ≡ err erofs
  serve-erofs r c w = ((serve-Refused r w).refuses c).0

reads :
    {P : Db → Type 0} {A : Type 0} (f : A → Reply) {m : Run Errno A}
    → Keeps P m
    → Keeps P (as_reply f m)
reads f h = Keeps-bind h λ a. Keeps-pure (f a)

-- A request that is not one of those keeps every property of the tables.
pub serve-reads :
    {P : Db → Type 0} (fs : CofferFs) (r : Request) → changes r ≡ false → Keeps P (serve fs r)
unfolding serve changes
serve-reads fs (Request.lookups p name) w = reads _ (lookup-Keeps fs p name)
serve-reads fs (Request.getattrs ino) w = reads _ (getattr-Keeps fs ino)
serve-reads fs (Request.readlinks ino) w = reads _ (readlink-Keeps fs ino)
serve-reads fs (Request.opens ino flags) w = reads _ (open_file-Keeps fs ino flags)
serve-reads fs (Request.reads ino offset size) w = reads _ (read-Keeps fs ino offset size)
serve-reads fs Request.flushes w = reads _ (accept-Keeps fs)
serve-reads fs Request.fsyncs w = reads _ (accept-Keeps fs)
serve-reads fs Request.releases w = reads _ (accept-Keeps fs)
serve-reads fs Request.accesses w = reads _ (accept-Keeps fs)
serve-reads fs Request.opendirs w = reads _ (opendir-Keeps fs)
serve-reads fs (Request.readdirs full ino offset) w = reads _ (readdir-Keeps fs full ino offset)
serve-reads fs (Request.statfss host) w = reads _ (statfs-Keeps fs host)
serve-reads fs (Request.getxattrs ino name size) w = reads _ (getxattr-Keeps fs ino name size)
serve-reads fs (Request.listxattrs ino size) w = reads _ (listxattr-Keeps fs ino size)
serve-reads fs _ w = cc

serve-same :
    (fs : CofferFs) → fs.read_only ≡ true → (r : Request) (c : Conn) → (serve fs r c).1.db ≡ c.db
serve-same fs ro r c = elim (Bool-cases (changes r)) [
  | inl w ↦ ((serve-Refused fs ro r w).refuses c).1
  | inr w ↦ (serve-reads {P = λ db. db ≡ c.db} fs r w).at c refl
]

-- No session of a read-only mount changes the tables, whatever is asked for and whatever fails.
pub session-read_only :
    (fs : CofferFs) (c : Conn) (rs : List Request)
    → fs.read_only ≡ true
    → (session fs c rs).db ≡ c.db
unfolding session
session-read_only fs c [] ro = refl
session-read_only fs c (r ∷ rs) ro =
    session-read_only fs (serve fs r c).1 rs ro ∙ serve-same fs ro r c
