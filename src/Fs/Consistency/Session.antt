-- ===== src/Fs/Consistency/Session.antt =====
-- Sessions: any requests, with any faults.
use coffer_fs.Base.{◌≡◌, List, [], ◌∷◌}
use coffer_fs.Db.{Db}
use coffer_fs.Db.Check.{find_inconsistencies, find_inconsistencies-zero}
use coffer_fs.Sql.{Errno, Run, Conn}
use coffer_fs.Sql.Rules.{Keeps, Keeps-pure, Keeps-bind}
use coffer_fs.Fs.Schema.{CofferFs}
use coffer_fs.Fs.Serve.{Request, Reply, as_reply, serve, session}
use coffer_fs.Fs.Consistency.Names.{Sound}
use coffer_fs.Fs.Consistency.Entries.{
  unlink-Keeps, rmdir-Keeps, mkdir-Keeps, symlink-Keeps, create-Keeps, link-Keeps, rename-Keeps,
}
use coffer_fs.Fs.Consistency.Rest.{
  write-Keeps, setattr-Keeps, setxattr-Keeps, removexattr-Keeps, lookup-Keeps, getattr-Keeps,
  readlink-Keeps, read-Keeps, open_file-Keeps, accept-Keeps, opendir-Keeps, readdir-Keeps,
  statfs-Keeps, getxattr-Keeps, listxattr-Keeps,
}

replied :
    {P : Db → Type 0} {A : Type 0} (f : A → Reply) {m : Run Errno A}
    → Keeps P m
    → Keeps P (as_reply f m)
replied f h = Keeps-bind h λ a. Keeps-pure (f a)

pub serve-Keeps : (fs : CofferFs) (r : Request) → Keeps Sound (serve fs r)
unfolding serve
serve-Keeps fs (Request.lookups p name) = replied _ (lookup-Keeps fs p name)
serve-Keeps fs (Request.getattrs ino) = replied _ (getattr-Keeps fs ino)
serve-Keeps fs (Request.setattrs uid ino s) = replied _ (setattr-Keeps fs uid ino s)
serve-Keeps fs (Request.readlinks ino) = replied _ (readlink-Keeps fs ino)
serve-Keeps fs (Request.mkdirs p name mode) = replied _ (mkdir-Keeps fs p name mode)
serve-Keeps fs (Request.unlinks p name) = replied _ (unlink-Keeps fs p name)
serve-Keeps fs (Request.rmdirs p name) = replied _ (rmdir-Keeps fs p name)
serve-Keeps fs (Request.symlinks p name to) = replied _ (symlink-Keeps fs p name to)
serve-Keeps fs (Request.renames p n p' n' flags) = replied _ (rename-Keeps fs p n p' n' flags)
serve-Keeps fs (Request.opens ino flags) = replied _ (open_file-Keeps fs ino flags)
serve-Keeps fs (Request.creates p name mode) = replied _ (create-Keeps fs p name mode)
serve-Keeps fs (Request.reads ino offset size) = replied _ (read-Keeps fs ino offset size)
serve-Keeps fs (Request.writes ino offset bytes kill) =
    replied _ (write-Keeps fs ino offset bytes kill)
serve-Keeps fs Request.flushes = replied _ (accept-Keeps fs)
serve-Keeps fs Request.fsyncs = replied _ (accept-Keeps fs)
serve-Keeps fs Request.releases = replied _ (accept-Keeps fs)
serve-Keeps fs Request.accesses = replied _ (accept-Keeps fs)
serve-Keeps fs Request.opendirs = replied _ (opendir-Keeps fs)
serve-Keeps fs (Request.readdirs full ino offset) = replied _ (readdir-Keeps fs full ino offset)
serve-Keeps fs (Request.statfss host) = replied _ (statfs-Keeps fs host)
serve-Keeps fs (Request.links ino p name) = replied _ (link-Keeps fs ino p name)
serve-Keeps fs (Request.setxattrs ino name value flags) =
    replied _ (setxattr-Keeps fs ino name value flags)
serve-Keeps fs (Request.getxattrs ino name size) = replied _ (getxattr-Keeps fs ino name size)
serve-Keeps fs (Request.listxattrs ino size) = replied _ (listxattr-Keeps fs ino size)
serve-Keeps fs (Request.removexattrs ino name) = replied _ (removexattr-Keeps fs ino name)

pub session-Sound :
    (fs : CofferFs) (c : Conn) (rs : List Request) → Sound c.db → Sound (session fs c rs).db
unfolding session
session-Sound fs c [] v = v
session-Sound fs c (r ∷ rs) v = session-Sound fs (serve fs r c).1 rs ((serve-Keeps fs r).at c v)

-- From tables that satisfy the invariant, and after any requests, answered or failed, with any
-- statements of SQLite failing on the way, `find_inconsistencies` counts neither a name without an
-- inode nor an inode without a name.
pub session-find_inconsistencies :
    (fs : CofferFs) (c : Conn) (rs : List Request)
    → Sound c.db
    → find_inconsistencies (session fs c rs).db ≡ (0, 0)
session-find_inconsistencies fs c rs v =
    find_inconsistencies-zero (session fs c rs).db (session-Sound fs c rs v)
