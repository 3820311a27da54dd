-- ===== src/Fs/Content/Calls.antt =====
-- The calls `read`, `write` and `setattr` of src/fs.rs.
use coffer_fs.Base.{
  ℕ, ◌+◌, ◌-◌, ◌*◌, ◌/◌, ◌%◌, min, max, Bool, true, false, not, ◌&&◌, ◌||◌, Option, none, some,
  List, [], Result, ok, err, ltb, leb, ◌==◌, if◌then◌else◌, length,
}
use coffer_fs.Db.{kind_dir}
use coffer_fs.Sql.{
  SqlError, Errno, eio, efbig, enoent, enospc, Run, pure, fail, ◌>>=◌, ◌>>◌, map_err, always_eio,
  attempt, execute, now_secs, transaction, or_fail,
}
use coffer_fs.Fs.Schema.{
  max_file_size, u32_mod, u64_mod, CofferFs, InodeRow, touch, row_by_ino, current_total_size,
}
use coffer_fs.Fs.Inodes.{set_columns, resized, kill_priv, truncate_inode}
use coffer_fs.Fs.Attr.{FileAttr, errno_for, attr_or_eio, writable}
use coffer_fs.Fs.Content.Loops.{read_loop, write_loop}

-- `offset + size as u64` wraps in a release build.
unfoldable pub read_end : ℕ → ℕ → ℕ → ℕ
read_end offset size file_size = min ((offset + size) % u64_mod) file_size

unfoldable pub read : ℕ → ℕ → ℕ → Run Errno (List ℕ)
read ino offset size = do
  touch
  found ← map_err always_eio (row_by_ino ino)
  row ← or_fail found enoent
  let stop = read_end offset size row.size
  if leb stop offset then pure [] else read_loop (stop - offset) ino offset stop []

abbrev pub over_limit : ℕ → ℕ → Result SqlError ℕ → Bool
over_limit max_size growth (ok used) = ltb max_size ((used + growth) % u64_mod)
over_limit max_size growth (err e) = false

-- `if self.max_size != 0 && … { if let Ok(used) = current_total_size { if used + growth > max … } }`
unfoldable pub check_quota : CofferFs → Bool → ℕ → Run Errno (Unit {0})
check_quota fs asked growth =
    if not (fs.max_size == 0) && asked
    then (do
      used ← attempt current_total_size
      if over_limit fs.max_size growth used then fail enospc else pure tt)
    else pure tt

unfoldable pub write : CofferFs → ℕ → ℕ → List ℕ → Bool → Run Errno ℕ
write fs ino offset content kill_suidgid = do
  touch
  writable fs
  if ltb max_file_size offset || ltb (max_file_size - offset) (length content)
      then fail efbig
      else pure tt
  transaction errno_for (do
    found ← map_err always_eio (row_by_ino ino)
    row ← or_fail found enoent
    let new_size_needed = offset + length content
    check_quota fs (ltb row.size new_size_needed) (new_size_needed - row.size)
    write_loop (length content) ino offset content
    now ← now_secs
    map_err errno_for (execute (set_columns ino (resized (max row.size new_size_needed) now)))
    if kill_suidgid then map_err errno_for (kill_priv ino) else pure tt
    pure (length content % u32_mod))

pub data TimeOrNow : Type 0 where
  specific : Option ℕ → TimeOrNow
  now_time : TimeOrNow

-- A time before 1970 counts as 0.
unfoldable pub time_or_now_to_secs : Option TimeOrNow → Run Errno (Option ℕ)
time_or_now_to_secs none = pure none
time_or_now_to_secs (some (specific none)) = pure (some 0)
time_or_now_to_secs (some (specific (some t))) = pure (some t)
time_or_now_to_secs (some now_time) = do now ← now_secs; pure (some now)

abbrev pub is_ok : {A : Type 0} → Result SqlError A → Bool
is_ok (ok _) = true
is_ok (err _) = false

abbrev is_some : {A : Type 0} → Option A → Bool
is_some none = false
is_some (some _) = true

abbrev or_else : Option ℕ → ℕ → ℕ
or_else none d = d
or_else (some x) d = x

-- `ok &= ….is_ok()`
abbrev pub succeeds : {A : Type 0} → Run SqlError A → Run Errno Bool
succeeds m = do r ← attempt m; pure (is_ok r)

pub record SetAttr : Type 0 where
  pub mode : Option ℕ
  pub uid : Option ℕ
  pub gid : Option ℕ
  pub size : Option ℕ
  pub atime : Option TimeOrNow
  pub mtime : Option TimeOrNow

-- `kind_bits | (m & 0o7777)`
unfoldable pub chmod_bits : ℕ → ℕ → ℕ
chmod_bits old m = old / 4096 * 4096 + m % 4096

unfoldable pub set_mode : ℕ → InodeRow → ℕ → Option ℕ → Run Errno Bool
set_mode ino row now none = pure true
set_mode ino row now (some m) =
    succeeds
      (execute (set_columns ino λ cols. record cols { mode = chmod_bits row.mode m; ctime = now }))

unfoldable pub set_owner : ℕ → InodeRow → ℕ → Option ℕ → Option ℕ → Run Errno Bool
set_owner ino row now uid gid =
    if is_some uid || is_some gid
    then succeeds (
        execute (
          set_columns ino λ cols. record cols {
            uid = or_else uid row.uid;
            gid = or_else gid row.gid;
            ctime = now;
          }))
    else pure true

unfoldable pub set_size : CofferFs → ℕ → InodeRow → Option ℕ → Run Errno Bool
set_size fs ino row none = pure true
set_size fs ino row (some new_len) = do
  if ltb max_file_size new_len then fail efbig else pure tt
  check_quota fs (ltb row.size new_len) (new_len - row.size)
  succeeds (truncate_inode ino new_len)

unfoldable pub set_access : ℕ → InodeRow → Option TimeOrNow → Option TimeOrNow → Run Errno Bool
unfolding time_or_now_to_secs
set_access ino row atime mtime =
    if is_some atime || is_some mtime
    then (do
      a ← time_or_now_to_secs atime
      m ← time_or_now_to_secs mtime
      succeeds (
          execute (
            set_columns ino
              λ cols. record cols { atime = or_else a row.atime; mtime = or_else m row.mtime })))
    else pure true

unfoldable pub must_drop : ℕ → InodeRow → SetAttr → Bool
must_drop req_uid row s =
    not (is_some s.mode)
    && (is_some s.size && not (req_uid == 0)
        || (is_some s.uid || is_some s.gid) && not (row.kind == kind_dir))

unfoldable pub drop_priv : ℕ → ℕ → InodeRow → SetAttr → Run Errno Bool
unfolding must_drop
drop_priv req_uid ino row s =
    if must_drop req_uid row s then succeeds (kill_priv ino) else pure true

unfoldable pub setattr : CofferFs → ℕ → ℕ → SetAttr → Run Errno FileAttr
setattr fs req_uid ino s = do
  touch
  writable fs
  transaction always_eio (do
    found ← map_err always_eio (row_by_ino ino)
    row ← or_fail found enoent
    now ← now_secs
    ok1 ← set_mode ino row now s.mode
    ok2 ← set_owner ino row now s.uid s.gid
    ok3 ← set_size fs ino row s.size
    ok4 ← set_access ino row s.atime s.mtime
    ok5 ← drop_priv req_uid ino row s
    if ok1 && ok2 && ok3 && ok4 && ok5 then pure tt else fail eio)
  attr_or_eio ino
