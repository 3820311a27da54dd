-- ===== src/Fs/Inodes.antt =====
-- src/fs.rs: the helpers that change several rows: names, whole inodes, privileges and truncation.
use Prim.Native.String.{len}
use coffer_fs.Base.{
  ℕ, suc, ◌-◌, ◌/◌, ◌%◌, String, Bool, not, ◌&&◌, Option, none, some, ◌∷◌, Result, ok, err, ltb,
  ◌==◌, if◌then◌else◌, keep, take,
}
use coffer_fs.Db.{Db, Columns, Xattr, block_size, kind_dir}
use coffer_fs.Db.Rows.{
  find_inode, update_inode, without_inode, find_name, count_names, without_name, without_block,
  is_xattr,
}
use coffer_fs.Sql.{
  SqlError, constraint, no_such_table, Errno, enotempty, eio, Run, pure, fail, ◌>>=◌, ◌>>◌, map_err,
  always_eio, query, execute, statement, now_secs,
}
use coffer_fs.Fs.Schema.{has_children, get_block, put_block}

abbrev pub set_columns : ℕ → (Columns → Columns) → Db → Db
set_columns ino f db = record db { inodes = update_inode ino f db.inodes }

abbrev pub set_ctime : ℕ → Columns → Columns
set_ctime now cols = record cols { ctime = now }

abbrev pub set_times : ℕ → Columns → Columns
set_times now cols = record cols { mtime = now; ctime = now }

-- INSERT INTO dentries: the primary key (parent, name) refuses a name that is there.
unfoldable pub insert_dentry : ℕ → String → ℕ → Db → Result SqlError (Unit {0} × Db)
insert_dentry parent name ino db = elim (find_name parent name db.dentries) [
  | some _ ↦ err constraint
  | none ↦ ok (
    tt,
    record db { dentries = record { parent = parent; name = name; ino = ino } ∷ db.dentries },
  )
]

unfoldable pub link_dentry : ℕ → String → ℕ → ℕ → Run SqlError (Unit {0})
link_dentry parent name ino now = do
  statement (insert_dentry parent name ino)
  execute (set_columns parent (set_times now))

-- INSERT INTO inodes: AUTOINCREMENT gives the number above all that were given out.
unfoldable pub insert_inode : Columns → Db → Result SqlError (ℕ × Db)
insert_inode cols db = ok (
  suc db.seq,
  record db { inodes = record { ino = suc db.seq; columns = cols } ∷ db.inodes; seq = suc db.seq },
)

-- `symlink_target.map(|s| s.len()).unwrap_or(0)`
unfoldable pub target_len : Option String → ℕ
target_len none = 0
target_len (some s) = len s

unfoldable pub new_columns : ℕ → ℕ → ℕ → ℕ → Option String → ℕ → Columns
unfolding target_len
new_columns kind mode uid gid target now = record {
  kind = kind;
  mode = mode;
  uid = uid;
  gid = gid;
  size = target_len target;
  atime = now;
  mtime = now;
  ctime = now;
  symlink_target = target;
}

unfoldable pub insert_child : ℕ → String → ℕ → ℕ → ℕ → ℕ → Option String → Run SqlError ℕ
unfolding new_columns
insert_child parent name kind mode uid gid target = do
  now ← now_secs
  new_ino ← statement (insert_inode (new_columns kind mode uid gid target now))
  link_dentry parent name new_ino now
  pure new_ino

-- DELETE FROM xattrs WHERE …: an error where the table is missing.
unfoldable pub delete_xattrs : (Xattr → Bool) → Db → Result SqlError (Unit {0} × Db)
delete_xattrs doomed db = elim db.xattrs [
  | none ↦ err no_such_table
  | some rows ↦ ok (tt, record db { xattrs = some (keep (λ x. not (doomed x)) rows) })
]

-- DELETE FROM inodes WHERE ino=?1, with the trigger `xattrs_gc` of a container that has the table.
unfoldable pub delete_inode_row : ℕ → Db → Db
delete_inode_row ino db = record db {
  inodes = without_inode ino db.inodes;
  xattrs = elim db.xattrs [ none ↦ none | some rows ↦ some (keep (λ x. not (x.ino == ino)) rows) ];
}

unfoldable pub delete_inode : ℕ → Run SqlError (Unit {0})
delete_inode ino = do
  execute (λ db. record db { blocks = keep (λ b. not (b.ino == ino)) db.blocks })
  statement (delete_xattrs (λ x. x.ino == ino))
  execute (delete_inode_row ino)

unfoldable pub unlink_dentry : ℕ → String → ℕ → ℕ → Run SqlError (Unit {0})
unlink_dentry parent name ino now = do
  execute (λ db. record db { dentries = without_name parent name db.dentries })
  remaining ← query (λ db. count_names ino db.dentries)
  if remaining == 0 then delete_inode ino else execute (set_columns ino (set_ctime now))
  execute (set_columns parent (set_times now))

abbrev pub removable : ℕ → Option Columns → Run Errno (Unit {0})
removable ino none = fail eio
removable ino (some cols) =
    if cols.kind == kind_dir
    then (do
      children ← map_err always_eio (has_children ino)
      if children then fail enotempty else pure tt)
    else pure tt

unfoldable pub ensure_removable : ℕ → Run Errno (Unit {0})
ensure_removable ino = do
  found ← map_err always_eio (query (λ db. find_inode ino db.inodes))
  removable ino found

-- `mode & 2048 != 0`, and the same for 1024 and 8
abbrev pub has_bit : ℕ → ℕ → Bool
has_bit mode bit = (mode / bit) % 2 == 1

-- UPDATE inodes SET mode = mode & ~2048 WHERE … AND (mode & 2048) != 0
unfoldable pub drop_setuid : Columns → Columns
drop_setuid cols = if has_bit cols.mode 2048 then record cols { mode = cols.mode - 2048 } else cols

-- … SET mode = mode & ~1024 WHERE … AND (mode & 1024) != 0 AND (mode & 8) != 0
unfoldable pub drop_setgid : Columns → Columns
drop_setgid cols =
    if has_bit cols.mode 1024 && has_bit cols.mode 8
    then record cols { mode = cols.mode - 1024 }
    else cols

unfoldable pub kill_priv : ℕ → Run SqlError (Unit {0})
kill_priv ino = do
  execute (set_columns ino drop_setuid)
  execute (set_columns ino drop_setgid)
  statement (delete_xattrs (is_xattr ino "security.capability"))

abbrev pub resized : ℕ → ℕ → Columns → Columns
resized length now cols = record cols { size = length; mtime = now; ctime = now }

-- The block that holds the new end: cut where the end lies inside it, and gone otherwise.
abbrev pub cut_last_block : ℕ → ℕ → ℕ → Run SqlError (Unit {0})
cut_last_block ino last_block last_off =
    if ltb 0 last_off
    then (do block ← get_block ino last_block; put_block ino last_block (take last_off block))
    else execute (λ db. record db { blocks = without_block ino last_block db.blocks })

unfoldable pub truncate_inode : ℕ → ℕ → Run SqlError (Unit {0})
truncate_inode ino length = do
  let last_block = length / block_size
  let last_off = length % block_size
  execute (λ db. record db {
    blocks = keep (λ b. not (b.ino == ino && ltb last_block b.block_no)) db.blocks;
  })
  cut_last_block ino last_block last_off
  now ← now_secs
  execute (set_columns ino (resized length now))
