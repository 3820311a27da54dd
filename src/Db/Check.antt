-- ===== src/Db/Check.antt =====
-- src/db.rs `find_inconsistencies`, and the invariant that keeps it at (0, 0).
pub mod Invariant
use coffer_fs.Base.{
  ℕ, ◌+◌, ◌≤◌, ◌<◌, ◌≡◌, refl, ◌⊎◌, inl, inr, Bool, true, false, not, ◌&&◌, List, [], ◌∷◌, arith,
  ◌==◌, if◌then◌else◌, All, keep, length, Bool-cases,
}
use coffer_fs.Db.{Db, Inode, Dentry, root_ino}
use coffer_fs.Db.Rows.{count_names}
use coffer_fs.Db.Inodes.{has_inode}
use coffer_fs.Db.Check.Invariant.{Inv, Named}

-- Names without an inode: the LEFT JOIN finds no partner.
unfoldable pub dangling : Db → ℕ
dangling db = length (keep (λ d. not (has_inode d.ino db.inodes)) db.dentries)

-- Inodes but the root that no name points at.
unfoldable pub unreachable : Db → ℕ
unreachable db =
    length (keep (λ x. not (x.ino == root_ino) && count_names x.ino db.dentries == 0) db.inodes)

unfoldable pub find_inconsistencies : Db → ℕ × ℕ
unfolding dangling unreachable
find_inconsistencies db = (dangling db, unreachable db)

none_dangling :
    (xs : List Inode) (ds : List Dentry)
    → All (λ d. has_inode d.ino xs ≡ true) ds
    → length (keep (λ d. not (has_inode d.ino xs)) ds) ≡ 0
none_dangling xs [] h = refl
none_dangling xs (d ∷ ds) h = ground (arith, none_dangling xs ds h.1)

none_unreachable :
    (ds : List Dentry) (xs : List Inode)
    → All (λ x. Named root_ino ds x.ino) xs
    → length (keep (λ x. not (x.ino == root_ino) && count_names x.ino ds == 0) xs) ≡ 0
none_unreachable ds [] h = refl
none_unreachable ds (x ∷ xs) h = ground (arith, none_unreachable ds xs h.1)

pub find_inconsistencies-zero : (db : Db) → Inv root_ino db → find_inconsistencies db ≡ (0, 0)
unfolding find_inconsistencies
find_inconsistencies-zero db v = ground (
  arith,
  none_dangling db.inodes db.dentries v.no_dangling,
  none_unreachable db.dentries db.inodes v.all_named,
)
