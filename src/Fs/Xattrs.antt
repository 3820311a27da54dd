-- ===== src/Fs/Xattrs.antt =====
-- src/fs.rs: extended attributes.
pub mod RoundTrip
use Prim.Native.String.{len}
use coffer_fs.Base.{
  ℕ, String, Bool, true, false, not, ◌&&◌, ◌||◌, Option, none, some, List, [], ◌∷◌, ◌++◌, Result,
  ok, err, ltb, ◌==◌, if◌then◌else◌, keep, length, sort_by, as_bytes,
}
use coffer_fs.Db.{Db, Xattr}
use coffer_fs.Db.Rows.{find_xattr, without_xattr}
use coffer_fs.Sql.{
  SqlError, no_such_table, Errno, erange, e2big, eexist, enoent, enodata, enotsup, Run, pure, fail,
  lift, ◌>>=◌, ◌>>◌, map_err, always_eio, statement, execute, now_secs, transaction, or_fail,
}
use coffer_fs.Fs.Schema.{CofferFs, OsStr, touch, row_by_ino, xattr_name_max, xattr_size_max}
use coffer_fs.Fs.Inodes.{set_columns, set_ctime, has_bit}
use coffer_fs.Fs.Attr.{XattrReply, reply_xattr, writable, named}

-- A statement on the table `xattrs`, which may be missing.
unfoldable pub on_xattrs :
    {A : Type 0} → (List Xattr → A × List Xattr) → Db → Result SqlError (A × Db)
on_xattrs f db = elim db.xattrs [
  | none ↦ err no_such_table
  | some rows ↦ (let (a, rows') = f rows in ok (a, record db { xattrs = some rows' }))
]

-- INSERT OR REPLACE INTO xattrs
abbrev pub put_xattr : ℕ → String → List ℕ → List Xattr → List Xattr
put_xattr ino name value rows =
    record { ino = ino; name = name; value = value } ∷ without_xattr ino name rows

abbrev pub is_some : {A : Type 0} → Option A → Bool
is_some none = false
is_some (some _) = true

unfoldable pub xattr_create : ℕ
xattr_create = 1

unfoldable pub xattr_replace : ℕ
xattr_replace = 2

unfoldable pub check_flags : ℕ → Bool → Run Errno (Unit {0})
unfolding xattr_create xattr_replace
check_flags flags exists =
    if exists && has_bit flags xattr_create
    then fail eexist
    else if not exists && has_bit flags xattr_replace
    then fail enodata
    else pure tt

unfoldable pub setxattr : CofferFs → ℕ → OsStr → List ℕ → ℕ → Run Errno (Unit {0})
setxattr fs ino name value flags = do
  touch
  writable fs
  if fs.has_xattrs then pure tt else fail enotsup
  text ← named name
  if len text == 0 || ltb xattr_name_max (len text) then fail erange else pure tt
  if ltb xattr_size_max (length value) then fail e2big else pure tt
  transaction always_eio (do
    found ← map_err always_eio (row_by_ino ino)
    row ← or_fail found enoent
    old ← map_err always_eio (statement (on_xattrs λ rows. (find_xattr ino text rows, rows)))
    check_flags flags (is_some old)
    now ← now_secs
    map_err always_eio (statement (on_xattrs λ rows. (tt, put_xattr ino text value rows)))
    map_err always_eio (execute (set_columns ino (set_ctime now))))

unfoldable pub getxattr : CofferFs → ℕ → OsStr → ℕ → Run Errno XattrReply
getxattr fs ino name size = do
  touch
  text ← named name
  if fs.has_xattrs then pure tt else fail enodata
  found ← map_err always_eio (statement (on_xattrs λ rows. (find_xattr ino text rows, rows)))
  value ← or_fail found enodata
  lift (reply_xattr size value)

-- Every name with a NUL behind it, in the order of the names.
unfoldable pub name_list : List Xattr → List ℕ
name_list [] = []
name_list (x ∷ xs) = as_bytes x.name ++ (0 ∷ name_list xs)

unfoldable pub names_of : ℕ → List Xattr → List ℕ
unfolding name_list sort_by as_bytes
names_of ino rows = name_list (sort_by (λ x. x.name) (keep (λ x. x.ino == ino) rows))

unfoldable pub listxattr : CofferFs → ℕ → ℕ → Run Errno XattrReply
listxattr fs ino size = do
  touch
  if fs.has_xattrs
      then (do
        names ← map_err always_eio (statement (on_xattrs λ rows. (names_of ino rows, rows)))
        lift (reply_xattr size names))
      else lift (reply_xattr size [])

-- `execute` of a DELETE returns the number of rows that went; only whether there are any matters.
unfoldable pub removexattr : CofferFs → ℕ → OsStr → Run Errno (Unit {0})
removexattr fs ino name = do
  touch
  writable fs
  text ← named name
  if fs.has_xattrs then pure tt else fail enodata
  transaction always_eio (do
    removed ← map_err always_eio (
        statement
          (on_xattrs λ rows. (is_some (find_xattr ino text rows), without_xattr ino text rows)))
    if removed then pure tt else fail enodata
    now ← now_secs
    map_err always_eio (execute (set_columns ino (set_ctime now))))
