-- ===== src/Fs/Schema.antt =====
-- src/fs.rs: the parameters of a mount and the helpers that read and write one row.
use mathlib.Core.Option
use coffer_fs.Base.{
  ℕ, ◌%◌, String, Bool, Option, none, some, List, [], ◌∷◌, Result, ok, err, leb, ◌==◌,
  if◌then◌else◌,
}
use coffer_fs.Db.{Db, Columns, Dentry, Block, kind_dir}
use coffer_fs.Db.Rows.{
  find_inode, sum_sizes, find_name, count_names, has_entries, find_block, without_block, set_block,
}
use coffer_fs.Sql.{SqlError, failure, Run, ◌>>=◌, query, execute, statement, now_secs}

abbrev pub max_file_size : ℕ
max_file_size = 9223372036854775807

abbrev pub xattr_name_max : ℕ
xattr_name_max = 255

abbrev pub xattr_size_max : ℕ
xattr_size_max = 65536

abbrev pub u32_mod : ℕ
u32_mod = 4294967296

abbrev pub u64_mod : ℕ
u64_mod = 18446744073709551616

-- The fields of `CofferFS` that a mount never changes.
pub record CofferFs : Type 0 where
  pub max_size : ℕ
  pub uid : ℕ
  pub gid : ℕ
  pub read_only : Bool
  pub has_xattrs : Bool

-- `InodeRow`: the columns and the derived link count.
pub record InodeRow : Type 0 where
  pub columns : Columns
  pub open columns use *
  pub nlink : ℕ

-- A text of the kernel: `to_str` is `None` where it is not UTF-8.
pub data OsStr : Type 0 where
  utf8 : String → OsStr
  not_utf8 : OsStr

unfoldable pub to_str : OsStr → Option String
to_str (utf8 s) = some s
to_str not_utf8 = none

-- `touch`: the clock is read once more, and its value stored.
unfoldable pub touch : {E : Type 0} → Run E (Unit {0})
unfolding now_secs
touch = do now ← now_secs; (λ c. (ok tt, record c { last_activity = now }))

-- `nlink` of SELECT_ROW_BY_INO, `as u32`
unfoldable pub nlink_of : ℕ → Columns → List Dentry → ℕ
nlink_of ino cols ds = if cols.kind == kind_dir then 2 else count_names ino ds % u32_mod

unfoldable pub select_row : ℕ → Db → Option InodeRow
unfolding nlink_of
select_row ino db =
    Option.map (λ cols. record { columns = cols; nlink = nlink_of ino cols db.dentries })
      (find_inode ino db.inodes)

unfoldable pub row_by_ino : ℕ → Run SqlError (Option InodeRow)
row_by_ino ino = query (select_row ino)

unfoldable pub child_ino : ℕ → String → Run SqlError (Option ℕ)
child_ino parent name = query (λ db. find_name parent name db.dentries)

unfoldable pub has_children : ℕ → Run SqlError Bool
has_children ino = query (λ db. has_entries ino db.dentries)

unfoldable pub get_block : ℕ → ℕ → Run SqlError (List ℕ)
get_block ino block_no = query (λ db. find_block ino block_no db.blocks)

-- An empty block is not stored.
abbrev pub stored : ℕ → ℕ → List ℕ → List Block → List Block
stored ino block_no [] bs = without_block ino block_no bs
stored ino block_no (x ∷ xs) bs = set_block ino block_no (x ∷ xs) bs

unfoldable pub put_block : ℕ → ℕ → List ℕ → Run SqlError (Unit {0})
put_block ino block_no content =
    execute (λ db. record db { blocks = stored ino block_no content db.blocks })

-- `SUM` of SQLite fails where it leaves the range of i64.
abbrev pub total_size : Db → Result SqlError (ℕ × Db)
total_size db =
    if leb (sum_sizes db.inodes) max_file_size then ok (sum_sizes db.inodes, db) else err failure

unfoldable pub current_total_size : Run SqlError ℕ
current_total_size = statement total_size
