-- ===== src/Fs/Tests/Requests.antt =====
-- The theorems on src/fs.rs applied to the small container.
use coffer_fs.Base.{◌≡◌, ◌↔◌, refl, ◌⊎◌, inl, inr, true, false, some, List, [], ◌∷◌, ok, err, arith}
use coffer_fs.Db.Check.{find_inconsistencies}
use coffer_fs.Sql.{disk_full, eio}
use coffer_fs.Fs.Schema.{utf8, select_row}
use coffer_fs.Db.Inodes.{has_inode}
use coffer_fs.Db.Rows.{find_inode, count_names, find_name, is_name, sum_sizes}
use coffer_fs.Sql.{◌>>=◌, statement, transaction, now_secs}
use coffer_fs.Fs.Schema.{nlink_of, touch, to_str, child_ino}
use coffer_fs.Fs.Attr.{writable, named}
use coffer_fs.Fs.Inodes.{unlink_dentry}
use coffer_fs.Fs.Entries.{unlink}
use coffer_fs.Fs.Serve.{serve, session, Request}
use coffer_fs.Fs.Content.Calls.{read, write}
use coffer_fs.Fs.Content.Reading.{read_lem, bytes_from}
use coffer_fs.Fs.Content.Effects.{WrittenTo}
use coffer_fs.Fs.Content.Succeeding.{write_lem}
use coffer_fs.Fs.Content.Lost.{read-zeros}
use coffer_fs.Fs.Content.Truncating.{Truncated, truncate_inode_lem}
use coffer_fs.Fs.Entries.Rename.{Renamed, rename_lem}
use coffer_fs.Fs.Entries.{rename}
use coffer_fs.Fs.Inodes.{truncate_inode}
use coffer_fs.Fs.Content.RoundTrip.{write-read}
use coffer_fs.Fs.Entries.Mkdir.{mkdir_lem, MadeDir}
use coffer_fs.Fs.Entries.{mkdir}
use coffer_fs.Fs.Entries.Rmdir.{rmdir_lem}
use coffer_fs.Fs.Entries.{rmdir}
use coffer_fs.Db.Rows.{has_entries}
use coffer_fs.Fs.Tests.{root_dir}
use coffer_fs.Sql.{Conn}
use coffer_fs.Db.{Db}
use coffer_fs.Fs.Attr.{FileAttr}
use coffer_fs.Fs.Entries.Unlink.{unlink_lem, Unlinked}
use coffer_fs.Fs.Xattrs.{setxattr}
use coffer_fs.Db.Rows.{find_xattr}
use coffer_fs.Fs.Xattrs.RoundTrip.{setxattr-getxattr, Stored}
use coffer_fs.Fs.Consistency.Names.{Sound}
use coffer_fs.Fs.Consistency.Session.{session-find_inconsistencies}
use coffer_fs.Cli.Check.{Findings, check_passes}
use coffer_fs.Cli.Check.Session.{OnlyKnown, check_passes-session}
use coffer_fs.Fs.Atomicity.{serve-Atomic, reads_back}
use coffer_fs.Fs.ReadOnly.{session-read_only}
use coffer_fs.Fs.Tests.{small_db, mount, mount_read_only, conn, conn_full, conn_broken, row_a}

abbrev requests : List Request
requests =
    Request.mkdirs 1 (utf8 "d") 493
    ∷ Request.renames 1 (utf8 "a") 3 (utf8 "b")
        (record { noreplace = false; exchange = false; whiteout = false })
    ∷ Request.unlinks 3 (utf8 "b")
    ∷ []

small_db-Sound : Sound small_db
unfolding find_name has_inode count_names
small_db-Sound = record {
  unique_names = (refl, tt);
  no_dangling = (refl, tt);
  all_named = (inl refl, (inr (inr (omega arith)), tt));
  not_reused = (omega arith, (omega arith, tt));
}

abbrev findings : Findings
findings = record {
  page_size = 4096;
  cipher_messages = "HMAC verification failed for page 1048577" ∷ [];
  integrity = "ok" ∷ [];
  is_version_2 = true;
  counts = some (find_inconsistencies (session mount conn_full requests).db);
}

session-find_inconsistencies_example :
    find_inconsistencies (session mount conn_full requests).db ≡ (0, 0)
session-find_inconsistencies_example =
    session-find_inconsistencies mount conn_full requests small_db-Sound

check_passes-session_example :
    (check_passes findings ≡ true)
    ↔ (OnlyKnown findings.page_size findings.cipher_messages × (findings.integrity ≡ "ok" ∷ []))
check_passes-session_example =
    check_passes-session mount conn_full requests findings small_db-Sound (omega arith) refl

row_a-found : select_row 2 small_db ≡ some row_a
unfolding select_row find_inode nlink_of count_names
row_a-found = refl

unlink_fails : (serve mount (Request.unlinks 1 (utf8 "a")) conn_full).0 ≡ err eio
unfolding serve unlink touch writable named to_str child_ino find_name is_name unlink_dentry
    statement transaction ◌>>=◌ now_secs
unlink_fails = refl

serve-Atomic_example :
    ((serve mount (Request.unlinks 1 (utf8 "a")) conn_full).1.db ≡ small_db)
    ⊎ ((reads_back (Request.unlinks 1 (utf8 "a")) ≡ true) × (eio ≡ eio))
serve-Atomic_example = serve-Atomic mount (Request.unlinks 1 (utf8 "a")) conn_full eio unlink_fails

small_db-sum : sum_sizes small_db.inodes ≡ 3
unfolding sum_sizes
small_db-sum = refl

write_lem_example :
    ((write mount 2 131070 (1 ∷ 2 ∷ 3 ∷ 4 ∷ []) true conn).0 ≡ ok 4)
    × WrittenTo 2 131070
        (1 ∷ 2 ∷ 3 ∷ 4 ∷ [])
        small_db
        (write mount 2 131070 (1 ∷ 2 ∷ 3 ∷ 4 ∷ []) true conn).1.db
write_lem_example =
    write_lem mount 2 131070 (1 ∷ 2 ∷ 3 ∷ 4 ∷ []) true conn row_a (λ n. refl) row_a-found refl
      (omega arith) (inr (omega (arith, small_db-sum))) ([], refl)

read_lem_example : (read 2 1 10 conn).0 ≡ ok (bytes_from small_db.blocks 2 1 2)
read_lem_example =
    read_lem 2 1 10 row_a conn (λ n. refl) row_a-found (omega arith) (omega arith) (omega arith)

session-read_only_example : (session mount_read_only conn requests).db ≡ small_db
session-read_only_example = session-read_only mount_read_only conn requests refl

small_db-find : find_name 1 "a" small_db.dentries ≡ some 2
unfolding find_name is_name
small_db-find = refl

unlink_lem_example :
    ((unlink mount 1 (utf8 "a") conn).0 ≡ ok tt)
    × Unlinked 1 "a" 2 small_db (unlink mount 1 (utf8 "a") conn).1.db
unfolding find_name
unlink_lem_example =
    unlink_lem mount 1 "a" 2 conn (λ n. refl) refl small_db-find (refl, tt) ([], refl)

setxattr-getxattr_example :
    ((setxattr mount 2 (utf8 "user.k") (5 ∷ 6 ∷ []) 1 conn).0 ≡ ok tt)
    × Stored mount 2 "user.k"
        (5 ∷ 6 ∷ [])
        []
        (setxattr mount 2 (utf8 "user.k") (5 ∷ 6 ∷ []) 1 conn).1
unfolding find_xattr
setxattr-getxattr_example =
    setxattr-getxattr mount 2 "user.k" (5 ∷ 6 ∷ []) 1 row_a [] conn (λ n. refl) refl refl
      (omega arith) (omega arith) (omega arith) row_a-found refl refl

read-zeros_example : (read 2 1 10 conn_broken).0 ≡ ok (0 ∷ 0 ∷ [])
read-zeros_example =
    read-zeros 2 1 10 row_a conn_broken disk_full refl (λ n. refl) row_a-found (omega arith)
      (omega arith) (omega arith)

mkdir_lem_example :
    (attr : FileAttr) × ((mkdir mount 1 (utf8 "d") 493 conn).0 ≡ ok attr)
    × MadeDir mount 1 "d" 493 small_db attr (mkdir mount 1 (utf8 "d") 493 conn).1.db
unfolding find_name is_name
mkdir_lem_example = mkdir_lem mount 1 "d" 493 conn (λ n. refl) refl refl

write-read_example :
    (read 2 131070 4 (write mount 2 131070 (1 ∷ 2 ∷ 3 ∷ 4 ∷ []) true conn).1).0
    ≡ ok (1 ∷ 2 ∷ 3 ∷ 4 ∷ [])
write-read_example =
    write-read 2 131070 (1 ∷ 2 ∷ 3 ∷ 4 ∷ []) conn row_a mount true (λ n. refl) row_a-found refl
      (omega arith) (omega arith) (omega arith) (inr (omega (arith, small_db-sum))) ([], refl)

rename_lem_example :
    ((rename mount 1
        (utf8 "a")
        1
        (utf8 "b")
        (record { noreplace = true; exchange = false; whiteout = false })
        conn).0
      ≡ ok tt)
    × Renamed 1 "a" 1 "b" 2 small_db
        (rename mount 1
          (utf8 "a")
          1
          (utf8 "b")
          (record { noreplace = true; exchange = false; whiteout = false })
          conn).1.db
unfolding find_name is_name
rename_lem_example =
    rename_lem mount 1 "a" 1 "b" (record { noreplace = true; exchange = false; whiteout = false }) 2
      conn (λ n. refl) refl refl refl small_db-find refl

truncate_inode_lem_example :
    ((truncate_inode 2 1 conn).0 ≡ ok tt) × Truncated 2 1 small_db (truncate_inode 2 1 conn).1.db
truncate_inode_lem_example = truncate_inode_lem 2 1 conn (λ n. refl)

-- The small container with an empty directory `d`.
abbrev with_dir : Db
with_dir = record small_db {
  inodes = record { ino = 3; columns = root_dir } ∷ small_db.inodes;
  dentries = record { parent = 1; name = "d"; ino = 3 } ∷ small_db.dentries;
  seq = 3;
}

abbrev conn_dir : Conn
conn_dir = record conn { db = with_dir }

dir_named : find_name 1 "d" with_dir.dentries ≡ some 3
unfolding find_name is_name
dir_named = refl

dir_found : find_inode 3 with_dir.inodes ≡ some root_dir
unfolding find_inode
dir_found = refl

dir_empty : has_entries 3 with_dir.dentries ≡ false
unfolding has_entries
dir_empty = refl

rmdir_lem_example :
    ((rmdir mount 1 (utf8 "d") conn_dir).0 ≡ ok tt)
    × Unlinked 1 "d" 3 with_dir (rmdir mount 1 (utf8 "d") conn_dir).1.db
unfolding find_name is_name
rmdir_lem_example =
    rmdir_lem mount 1 "d" 3 root_dir conn_dir (λ n. refl) refl dir_named (omega arith) dir_found
      dir_empty (refl, (refl, tt)) ([], refl)
