-- ===== src/Fs/Tests/Links.antt =====
-- A second name for the file of the small container: `link` of src/fs.rs.
use coffer_fs.Base.{◌≡◌, refl, some, none, ok}
use coffer_fs.Db.Rows.{find_name, is_name, find_inode}
use coffer_fs.Fs.Schema.{utf8}
use coffer_fs.Fs.Attr.{FileAttr}
use coffer_fs.Fs.Entries.{link}
use coffer_fs.Fs.Entries.Link.{Linked, link_lem}
use coffer_fs.Fs.Tests.{small_db, mount, conn, file_a}

file_a_found : find_inode 2 small_db.inodes ≡ some file_a
unfolding find_inode
file_a_found = refl

hard_free : find_name 1 "hard" small_db.dentries ≡ none
unfolding find_name is_name
hard_free = refl

link_lem_example :
    (attr : FileAttr) × ((link mount 2 1 (utf8 "hard") conn).0 ≡ ok attr)
    × Linked 2 1 "hard" small_db attr (link mount 2 1 (utf8 "hard") conn).1.db
link_lem_example =
    link_lem mount 2 1 "hard" file_a conn (λ n. refl) refl file_a_found refl hard_free
