-- ===== src/Fs/Listing.antt =====
-- src/fs.rs: `readdir` and `statfs`.
use coffer_fs.Base.{
  ℕ, suc, ◌-◌, ◌/◌, String, Bool, Option, none, some, List, [], ◌∷◌, ◌++◌, Result, ok, err, ltb,
  ◌==◌, if◌then◌else◌, drop, sort_by,
}
use coffer_fs.Db.{Db, Columns, Inode, Dentry, root_ino}
use coffer_fs.Db.Rows.{find_inode}
use coffer_fs.Sql.{
  SqlError, Errno, enoent, Run, pure, ◌>>=◌, ◌>>◌, map_err, always_eio, attempt, query, or_fail,
}
use coffer_fs.Fs.Schema.{CofferFs, touch, current_total_size}
use coffer_fs.Fs.Attr.{FileType, directory, file_type_of}

pub record Entry : Type 0 where
  pub ino : ℕ
  pub kind : FileType
  pub name : String

-- SELECT parent FROM dentries WHERE ino=?1
unfoldable pub parent_of : ℕ → List Dentry → Option ℕ
parent_of ino [] = none
parent_of ino (d ∷ ds) = if d.ino == ino then some d.parent else parent_of ino ds

abbrev joined : Dentry → Option Columns → List Entry → List Entry
unfolding file_type_of
joined d none rest = rest
joined d (some cols) rest =
    record { ino = d.ino; kind = file_type_of cols.kind; name = d.name } ∷ rest

-- SELECT d.ino, d.name, i.kind FROM dentries d JOIN inodes i ON i.ino = d.ino WHERE d.parent=?1
unfoldable pub children : ℕ → List Inode → List Dentry → List Entry
unfolding joined
children ino inodes [] = []
children ino inodes (d ∷ ds) =
    let rest = children ino inodes ds in
    if d.parent == ino then joined d (find_inode d.ino inodes) rest else rest

unfoldable pub list_dir : ℕ → Db → List Entry
unfolding children sort_by
list_dir ino db = sort_by (λ e. e.name) (children ino db.inodes db.dentries)

-- `..` of the root is the root.
abbrev parent_ino : ℕ → Run Errno ℕ
parent_ino ino = if ino == root_ino then pure root_ino else (do
  found ← map_err (λ _. enoent) (query (λ db. parent_of ino db.dentries))
  or_fail found enoent)

-- The loop over `reply.add`, which says whether the reply is full; `next` is the offset that the
-- kernel asks with to go on behind the entry.
module _ (full : List (ℕ × Entry) → Entry → Bool) where
  unfoldable pub fill : ℕ → List Entry → List (ℕ × Entry) → List (ℕ × Entry)
  fill next [] reply = reply
  fill next (e ∷ es) reply =
      let rest = fill (suc next) es (reply ++ ((next, e) ∷ [])) in
      if full reply e then reply else rest

abbrev dot_entries : ℕ → ℕ → List Entry → List Entry
dot_entries ino parent rest =
    record { ino = ino; kind = directory; name = "." }
    ∷ record { ino = parent; kind = directory; name = ".." }
    ∷ rest

-- Every row is a step of the statement, and so is the end. Where one fails, `iter.flatten()` drops the
-- error, and with it the rows behind it.
abbrev pub onto_row :
    Entry → Run Errno (List Entry) → Result SqlError (Unit {0}) → Run Errno (List Entry)
onto_row e rest (ok u) = do es ← rest; pure (e ∷ es)
onto_row e rest (err x) = pure []

unfoldable pub stepped : List Entry → Run Errno (List Entry)
stepped [] = do attempt (query (λ db. tt)); pure []
stepped (e ∷ es) = let rest = stepped es in attempt (query (λ db. tt)) >>= onto_row e rest

unfoldable pub readdir : (List (ℕ × Entry) → Entry → Bool) → ℕ → ℕ → Run Errno (List (ℕ × Entry))
unfolding stepped
readdir full ino offset = do
  touch
  parent ← parent_ino ino
  found ← map_err always_eio (query (list_dir ino))
  rows ← stepped found
  pure (fill full (suc offset) (drop offset (dot_entries ino parent rows)) [])

pub record StatFs : Type 0 where
  pub blocks : ℕ
  pub bfree : ℕ
  pub bavail : ℕ
  pub files : ℕ
  pub ffree : ℕ
  pub bsize : ℕ
  pub namelen : ℕ
  pub frsize : ℕ

-- What `statvfs` tells of the container's directory, where it can.
pub record HostStat : Type 0 where
  pub blocks : ℕ
  pub blocks_free : ℕ
  pub blocks_available : ℕ

abbrev host_or_zero : Option HostStat → HostStat
host_or_zero none = record { blocks = 0; blocks_free = 0; blocks_available = 0 }
host_or_zero (some h) = h

abbrev used_or_zero : Result SqlError ℕ → ℕ
used_or_zero (ok used) = used
used_or_zero (err e) = 0

unfoldable pub space : ℕ → ℕ → HostStat → HostStat
space max_size used host =
    if ltb 0 max_size
    then record {
      blocks = max_size / 4096;
      blocks_free = (max_size - used) / 4096;
      blocks_available = (max_size - used) / 4096;
    }
    else host

unfoldable pub statfs : CofferFs → Option HostStat → Run Errno StatFs
unfolding space
statfs fs host = do
  touch
  used ← attempt current_total_size
  let s = space fs.max_size (used_or_zero used) (host_or_zero host)
  pure (record {
    blocks = s.blocks;
    bfree = s.blocks_free;
    bavail = s.blocks_available;
    files = 0;
    ffree = 1000000;
    bsize = 4096;
    namelen = 255;
    frsize = 4096;
  })
