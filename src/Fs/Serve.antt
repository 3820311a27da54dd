-- ===== src/Fs/Serve.antt =====
-- The requests of the FUSE session that src/fs.rs answers, one at a time under the lock of the
-- connection, and runs of them.
use coffer_fs.Base.{ℕ, String, Bool, Option, List, [], ◌∷◌}
use coffer_fs.Sql.{Errno, Conn, Run, pure, ◌>>=◌}
use coffer_fs.Fs.Schema.{CofferFs, OsStr}
use coffer_fs.Fs.Attr.{FileAttr, XattrReply, lookup, getattr, readlink, open_file, accept, opendir}
use coffer_fs.Fs.Content.Calls.{SetAttr, read, write, setattr}
use coffer_fs.Fs.Entries.{RenameFlags, mkdir, unlink, rmdir, symlink, create, link, rename}
use coffer_fs.Fs.Listing.{Entry, StatFs, HostStat, readdir, statfs}
use coffer_fs.Fs.Xattrs.{setxattr, getxattr, listxattr, removexattr}

-- The arguments that the handlers use, in their order. `reads` and `writes` carry the file handle,
-- which is the inode; the buffer of a `readdirs` says when it is full, and `statfss` carries
-- what `statvfs` answers.
pub data Request : Type 0 where
  lookups : ℕ → OsStr → Request
  getattrs : ℕ → Request
  setattrs : ℕ → ℕ → SetAttr → Request
  readlinks : ℕ → Request
  mkdirs : ℕ → OsStr → ℕ → Request
  unlinks : ℕ → OsStr → Request
  rmdirs : ℕ → OsStr → Request
  symlinks : ℕ → OsStr → OsStr → Request
  renames : ℕ → OsStr → ℕ → OsStr → RenameFlags → Request
  opens : ℕ → ℕ → Request
  creates : ℕ → OsStr → ℕ → Request
  reads : ℕ → ℕ → ℕ → Request
  writes : ℕ → ℕ → List ℕ → Bool → Request
  flushes fsyncs releases accesses opendirs : Request
  readdirs : (List (ℕ × Entry) → Entry → Bool) → ℕ → ℕ → Request
  statfss : Option HostStat → Request
  links : ℕ → ℕ → OsStr → Request
  setxattrs : ℕ → OsStr → List ℕ → ℕ → Request
  getxattrs : ℕ → OsStr → ℕ → Request
  listxattrs : ℕ → ℕ → Request
  removexattrs : ℕ → OsStr → Request

pub data Reply : Type 0 where
  attr : FileAttr → Reply
  target : String → Reply
  content : List ℕ → Reply
  written : ℕ → Reply
  opened : ℕ → Reply
  listing : List (ℕ × Entry) → Reply
  space : StatFs → Reply
  xattr : XattrReply → Reply
  done : Reply

abbrev pub as_reply : {A : Type 0} → (A → Reply) → Run Errno A → Run Errno Reply
as_reply f m = m >>= λ a. pure (f a)

unfoldable pub serve : CofferFs → Request → Run Errno Reply
serve fs (lookups parent name) = as_reply attr (lookup parent name)
serve fs (getattrs ino) = as_reply attr (getattr ino)
serve fs (setattrs uid ino s) = as_reply attr (setattr fs uid ino s)
serve fs (readlinks ino) = as_reply target (readlink ino)
serve fs (mkdirs parent name mode) = as_reply attr (mkdir fs parent name mode)
serve fs (unlinks parent name) = as_reply (λ _. done) (unlink fs parent name)
serve fs (rmdirs parent name) = as_reply (λ _. done) (rmdir fs parent name)
serve fs (symlinks parent name to) = as_reply attr (symlink fs parent name to)
serve fs (renames p n p' n' flags) = as_reply (λ _. done) (rename fs p n p' n' flags)
serve fs (opens ino flags) = as_reply opened (open_file fs ino flags)
serve fs (creates parent name mode) = as_reply attr (create fs parent name mode)
serve fs (reads ino offset size) = as_reply content (read ino offset size)
serve fs (writes ino offset bytes kill) = as_reply written (write fs ino offset bytes kill)
serve fs flushes = as_reply (λ _. done) accept
serve fs fsyncs = as_reply (λ _. done) accept
serve fs releases = as_reply (λ _. done) accept
serve fs accesses = as_reply (λ _. done) accept
serve fs opendirs = as_reply opened opendir
serve fs (readdirs full ino offset) = as_reply listing (readdir full ino offset)
serve fs (statfss host) = as_reply space (statfs fs host)
serve fs (links ino parent name) = as_reply attr (link fs ino parent name)
serve fs (setxattrs ino name value flags) = as_reply (λ _. done) (setxattr fs ino name value flags)
serve fs (getxattrs ino name size) = as_reply xattr (getxattr fs ino name size)
serve fs (listxattrs ino size) = as_reply xattr (listxattr fs ino size)
serve fs (removexattrs ino name) = as_reply (λ _. done) (removexattr fs ino name)

-- The connection after a whole session.
unfoldable pub session : CofferFs → Conn → List Request → Conn
session fs c [] = c
session fs c (r ∷ rs) = session fs (serve fs r c).1 rs
