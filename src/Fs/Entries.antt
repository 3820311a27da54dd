-- ===== src/Fs/Entries.antt =====
-- src/fs.rs: the calls that add, remove and move names.
pub mod Unlink
pub mod Mkdir
pub mod Rename
pub mod Rmdir
pub mod Link
use coffer_fs.Base.{
  ℕ, ◌+◌, ◌%◌, String, Bool, true, false, not, ◌&&◌, ◌||◌, Option, none, some, Result, ok, err, leb,
  ◌==◌, str_eq, if◌then◌else◌,
}
use Prim.Native.String.{len}
use coffer_fs.Db.{Db, kind_dir, kind_file, kind_symlink, root_ino}
use coffer_fs.Db.Rows.{find_name, move_name}
use coffer_fs.Sql.{
  SqlError, constraint, Errno, eexist, einval, enoent, enospc, ebusy, eperm, Run, pure, fail, ◌>>=◌,
  ◌>>◌, map_err, always_eio, attempt, statement, execute, now_secs, transaction, or_fail,
}
use coffer_fs.Fs.Schema.{CofferFs, OsStr, touch, row_by_ino, child_ino, current_total_size}
use coffer_fs.Fs.Inodes.{
  set_columns, set_ctime, set_times, link_dentry, insert_child, unlink_dentry, ensure_removable,
}
use coffer_fs.Fs.Attr.{FileAttr, errno_for, attr_or_eio, writable, named}
use coffer_fs.Fs.Content.Calls.{check_quota}

abbrev pub s_ifdir : ℕ
s_ifdir = 16384

abbrev pub s_ifreg : ℕ
s_ifreg = 32768

-- S_IFLNK | 0o777
abbrev symlink_mode : ℕ
symlink_mode = 41471

-- `Ok(Some(_)) => EEXIST, Ok(None) => {}`
unfoldable pub absent : Option ℕ → Run Errno (Unit {0})
absent none = pure tt
absent (some _) = fail eexist

unfoldable pub mkdir : CofferFs → ℕ → OsStr → ℕ → Run Errno FileAttr
mkdir fs parent name mode = do
  touch
  writable fs
  text ← named name
  new_ino ← transaction always_eio (do
    found ← map_err always_eio (child_ino parent text)
    absent found
    map_err always_eio
        (insert_child parent text kind_dir (s_ifdir + mode % 4096) fs.uid fs.gid none))
  attr_or_eio new_ino

unfoldable pub unlink : CofferFs → ℕ → OsStr → Run Errno (Unit {0})
unlink fs parent name = do
  touch
  writable fs
  text ← named name
  transaction always_eio (do
    found ← map_err always_eio (child_ino parent text)
    ino ← or_fail found enoent
    now ← now_secs
    map_err always_eio (unlink_dentry parent text ino now))

unfoldable pub rmdir : CofferFs → ℕ → OsStr → Run Errno (Unit {0})
rmdir fs parent name = do
  touch
  writable fs
  text ← named name
  transaction always_eio (do
    found ← map_err always_eio (child_ino parent text)
    ino ← or_fail found enoent
    if ino == root_ino then fail ebusy else pure tt
    ensure_removable ino
    now ← now_secs
    map_err always_eio (unlink_dentry parent text ino now))

-- `if let Ok(Some(_)) = child_ino(…)`: an error of the query is passed over.
abbrev pub absent_if_known : Result SqlError (Option ℕ) → Run Errno (Unit {0})
absent_if_known (ok found) = absent found
absent_if_known (err e) = pure tt

unfoldable pub symlink : CofferFs → ℕ → OsStr → OsStr → Run Errno FileAttr
unfolding absent
symlink fs parent link_name target = do
  touch
  writable fs
  text ← named link_name
  target_str ← named target
  new_ino ← transaction always_eio (do
    found ← attempt (child_ino parent text)
    absent_if_known found
    check_quota fs true (len target_str)
    map_err always_eio
        (insert_child parent text kind_symlink symlink_mode fs.uid fs.gid (some target_str)))
  attr_or_eio new_ino

abbrev is_full : ℕ → Result SqlError ℕ → Bool
is_full max_size (ok used) = leb max_size used
is_full max_size (err e) = false

unfoldable pub check_not_full : CofferFs → Run Errno (Unit {0})
check_not_full fs = if fs.max_size == 0 then pure tt else (do
  used ← attempt current_total_size
  if is_full fs.max_size used then fail enospc else pure tt)

unfoldable pub create : CofferFs → ℕ → OsStr → ℕ → Run Errno FileAttr
create fs parent name mode = do
  touch
  writable fs
  text ← named name
  new_ino ← transaction errno_for (do
    found ← map_err always_eio (child_ino parent text)
    absent found
    check_not_full fs
    map_err errno_for
        (insert_child parent text kind_file (s_ifreg + mode % 4096) fs.uid fs.gid none))
  attr_or_eio new_ino

unfoldable pub link : CofferFs → ℕ → ℕ → OsStr → Run Errno FileAttr
link fs ino newparent newname = do
  touch
  writable fs
  text ← named newname
  transaction always_eio (do
    found ← map_err always_eio (row_by_ino ino)
    row ← or_fail found enoent
    if row.kind == kind_dir then fail eperm else pure tt
    taken ← map_err always_eio (child_ino newparent text)
    absent taken
    now ← now_secs
    map_err always_eio (link_dentry newparent text ino now)
    map_err always_eio (execute (set_columns ino (set_ctime now)))
    attr_or_eio ino)

pub record RenameFlags : Type 0 where
  pub noreplace : Bool
  pub exchange : Bool
  pub whiteout : Bool

abbrev pub is_taken : Option ℕ → Bool
is_taken none = false
is_taken (some _) = true

-- What stands at the new name goes, unless it is the file itself.
abbrev pub replace_target : ℕ → ℕ → String → Option ℕ → Run Errno (Unit {0})
replace_target ino newparent newname none = pure tt
replace_target ino newparent newname (some existing) = if existing == ino then pure tt else (do
  ensure_removable existing
  now ← now_secs
  map_err always_eio (unlink_dentry newparent newname existing now))

abbrev pub same_key : ℕ → String → ℕ → String → Bool
same_key newparent newname parent name = newparent == parent && str_eq newname name

-- UPDATE dentries SET parent, name: no row is no error, and the primary key refuses a taken name.
unfoldable pub move_dentry : ℕ → String → ℕ → String → Db → Result SqlError (Unit {0} × Db)
move_dentry newparent newname parent name db =
    if is_taken (find_name parent name db.dentries)
      && is_taken (find_name newparent newname db.dentries)
      && not (same_key newparent newname parent name)
    then err constraint
    else ok (tt, record db { dentries = move_name newparent newname parent name db.dentries })

unfoldable pub rename : CofferFs → ℕ → OsStr → ℕ → OsStr → RenameFlags → Run Errno (Unit {0})
rename fs parent name newparent newname flags = do
  touch
  writable fs
  from ← named name
  to ← named newname
  transaction always_eio (do
    found ← map_err always_eio (child_ino parent from)
    ino ← or_fail found enoent
    target ← map_err always_eio (child_ino newparent to)
    if flags.exchange || flags.whiteout then fail einval else pure tt
    if flags.noreplace && is_taken target then fail eexist else pure tt
    replace_target ino newparent to target
    now ← now_secs
    map_err always_eio (statement (move_dentry newparent to parent from))
    map_err always_eio (
        execute
          (λ db. set_columns newparent (set_times now) (set_columns parent (set_times now) db))))
