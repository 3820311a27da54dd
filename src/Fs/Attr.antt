-- ===== src/Fs/Attr.antt =====
-- src/fs.rs: what a reply tells of an inode, and the calls that only read one row or none.
use coffer_fs.Base.{
  ℕ, ◌+◌, ◌/◌, ◌%◌, String, ◌&&◌, not, Option, none, some, List, Result, ok, err, ◌==◌, ltb,
  if◌then◌else◌, length,
}
use coffer_fs.Db.{kind_dir, kind_symlink}
use coffer_fs.Sql.{
  SqlError, disk_full, Errno, eio, enospc, enoent, einval, erofs, erange, Run, pure, fail, ◌>>=◌,
  ◌>>◌, map_err, always_eio, or_fail,
}
use coffer_fs.Fs.Schema.{u32_mod, InodeRow, CofferFs, OsStr, to_str, touch, row_by_ino, child_ino}

pub data FileType : Type 0 where
  directory symlink regular_file : FileType

-- Times are seconds since 1970, and `crtime` is `ctime`.
pub record FileAttr : Type 0 where
  pub ino : ℕ
  pub size : ℕ
  pub blocks : ℕ
  pub atime : ℕ
  pub mtime : ℕ
  pub ctime : ℕ
  pub crtime : ℕ
  pub kind : FileType
  pub perm : ℕ
  pub nlink : ℕ
  pub uid : ℕ
  pub gid : ℕ
  pub rdev : ℕ
  pub blksize : ℕ
  pub flags : ℕ

unfoldable pub file_type_of : ℕ → FileType
file_type_of kind =
    if kind == kind_dir then directory else if kind == kind_symlink then symlink else regular_file

unfoldable pub to_attr : ℕ → InodeRow → FileAttr
unfolding file_type_of
to_attr ino row = record {
  ino = ino;
  size = row.size;
  blocks = (row.size + 511) / 512;
  atime = row.atime;
  mtime = row.mtime;
  ctime = row.ctime;
  crtime = row.ctime;
  kind = file_type_of row.kind;
  perm = row.mode % 4096;
  nlink = row.nlink;
  uid = row.uid;
  gid = row.gid;
  rdev = 0;
  blksize = 4096;
  flags = 0;
}

unfoldable pub errno_for : SqlError → Errno
errno_for disk_full = enospc
errno_for _ = eio

-- The answer of `getxattr` and `listxattr`: the length where the caller asks for it, or the bytes.
pub data XattrReply : Type 0 where
  sized : ℕ → XattrReply
  bytes : List ℕ → XattrReply

unfoldable pub reply_xattr : ℕ → List ℕ → Result Errno XattrReply
reply_xattr size value =
    if size == 0
    then ok (sized (length value % u32_mod))
    else if ltb size (length value)
    then err erange
    else ok (bytes value)

-- `match row_by_ino(&con, ino) { Ok(Some(row)) => …, _ => EIO }`
unfoldable pub attr_or_eio : ℕ → Run Errno FileAttr
attr_or_eio ino = do
  found ← map_err always_eio (row_by_ino ino)
  row ← or_fail found eio
  pure (to_attr ino row)

-- The guards that open a handler that writes.
unfoldable pub writable : CofferFs → Run Errno (Unit {0})
writable fs = if fs.read_only then fail erofs else pure tt

unfoldable pub named : OsStr → Run Errno String
named name = or_fail (to_str name) einval

unfoldable pub lookup : ℕ → OsStr → Run Errno FileAttr
unfolding named
lookup parent name = do
  touch
  text ← named name
  found ← map_err always_eio (child_ino parent text)
  ino ← or_fail found enoent
  attr_or_eio ino

unfoldable pub getattr : ℕ → Run Errno FileAttr
getattr ino = do
  touch
  found ← map_err always_eio (row_by_ino ino)
  row ← or_fail found enoent
  pure (to_attr ino row)

-- The bytes of a link's target are those of the text.
abbrev or_empty : Option String → String
or_empty none = ""
or_empty (some s) = s

unfoldable pub readlink : ℕ → Run Errno String
readlink ino = do
  touch
  found ← map_err always_eio (row_by_ino ino)
  row ← or_fail found enoent
  pure (or_empty row.symlink_target)

-- `open`: the access mode is the low two bits of the flags, 0 for O_RDONLY; the handle is the inode.
unfoldable pub open_file : CofferFs → ℕ → ℕ → Run Errno ℕ
open_file fs ino flags = do
  touch
  if fs.read_only && not (flags % 4 == 0) then fail erofs else pure ino

-- `flush`, `fsync`, `release` and `access` answer without a look at the tables.
unfoldable pub accept : Run Errno (Unit {0})
accept = do touch; pure tt

unfoldable pub opendir : Run Errno ℕ
opendir = do touch; pure 0
