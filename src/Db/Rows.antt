-- ===== src/Db/Rows.antt =====
-- The SQL statements of src/fs.rs and src/db.rs, as functions on the tables: what each `SELECT`
-- reads and what each `INSERT`, `UPDATE` and `DELETE` leaves.
use coffer_fs.Base.{
  ℕ, ◌+◌, String, Bool, false, not, ◌&&◌, ◌||◌, Option, none, some, List, [], ◌∷◌, ◌==◌, str_eq,
  if◌then◌else◌, keep,
}
use coffer_fs.Db.{Columns, Inode, Dentry, Block, Xattr}

-- SELECT … FROM inodes WHERE ino=?1
unfoldable pub find_inode : ℕ → List Inode → Option Columns
find_inode i [] = none
find_inode i (x ∷ xs) = if x.ino == i then some x.columns else find_inode i xs

-- UPDATE inodes SET … WHERE ino=?1
unfoldable pub update_inode : ℕ → (Columns → Columns) → List Inode → List Inode
update_inode i f [] = []
update_inode i f (x ∷ xs) =
    let rest = update_inode i f xs in
    if x.ino == i then record x { columns = f x.columns } ∷ rest else x ∷ rest

abbrev pub without_inode : ℕ → List Inode → List Inode
without_inode i = keep (λ x. not (x.ino == i))

-- SELECT SUM(size) FROM inodes
unfoldable pub sum_sizes : List Inode → ℕ
sum_sizes [] = 0
sum_sizes (x ∷ xs) = x.columns.size + sum_sizes xs

unfoldable pub is_name : ℕ → String → Dentry → Bool
is_name parent name d = d.parent == parent && str_eq d.name name

-- SELECT ino FROM dentries WHERE parent=?1 AND name=?2
unfoldable pub find_name : ℕ → String → List Dentry → Option ℕ
find_name parent name [] = none
find_name parent name (d ∷ ds) =
    if is_name parent name d then some d.ino else find_name parent name ds

-- SELECT count(*) FROM dentries WHERE ino=?1
unfoldable pub count_names : ℕ → List Dentry → ℕ
count_names i [] = 0
count_names i (d ∷ ds) = (if d.ino == i then 1 else 0) + count_names i ds

-- SELECT 1 FROM dentries WHERE parent=?1 LIMIT 1
unfoldable pub has_entries : ℕ → List Dentry → Bool
has_entries parent [] = false
has_entries parent (d ∷ ds) = d.parent == parent || has_entries parent ds

-- DELETE FROM dentries WHERE parent=?1 AND name=?2
unfoldable pub without_name : ℕ → String → List Dentry → List Dentry
without_name parent name [] = []
without_name parent name (d ∷ ds) =
    let rest = without_name parent name ds in if is_name parent name d then rest else d ∷ rest

-- UPDATE dentries SET parent=?1, name=?2 WHERE parent=?3 AND name=?4, where the key is free
unfoldable pub move_name : ℕ → String → ℕ → String → List Dentry → List Dentry
move_name newparent newname parent name [] = []
move_name newparent newname parent name (d ∷ ds) =
    let rest = move_name newparent newname parent name ds in
    if is_name parent name d
    then record d { parent = newparent; name = newname } ∷ rest
    else d ∷ rest

unfoldable pub is_block : ℕ → ℕ → Block → Bool
is_block i n b = b.ino == i && b.block_no == n

-- SELECT content FROM data WHERE ino=?1 AND block_no=?2; a missing block is empty
unfoldable pub find_block : ℕ → ℕ → List Block → List ℕ
find_block i n [] = []
find_block i n (b ∷ bs) = if is_block i n b then b.content else find_block i n bs

abbrev pub without_block : ℕ → ℕ → List Block → List Block
without_block i n = keep (λ b. not (is_block i n b))

-- INSERT INTO data … ON CONFLICT(ino, block_no) DO UPDATE
unfoldable pub set_block : ℕ → ℕ → List ℕ → List Block → List Block
set_block i n content [] = record { ino = i; block_no = n; content = content } ∷ []
set_block i n content (b ∷ bs) =
    let rest = set_block i n content bs in
    if is_block i n b then record b { content = content } ∷ bs else b ∷ rest

abbrev pub is_xattr : ℕ → String → Xattr → Bool
is_xattr i name x = x.ino == i && str_eq x.name name

-- SELECT value FROM xattrs WHERE ino=?1 AND name=?2
unfoldable pub find_xattr : ℕ → String → List Xattr → Option (List ℕ)
find_xattr i name [] = none
find_xattr i name (x ∷ xs) = if is_xattr i name x then some x.value else find_xattr i name xs

abbrev pub without_xattr : ℕ → String → List Xattr → List Xattr
without_xattr i name = keep (λ x. not (is_xattr i name x))
