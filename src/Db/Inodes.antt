-- ===== src/Db/Inodes.antt =====
-- The table `inodes` under the statements on it.
use mathlib.Core.Option
use coffer_fs.Base.{
  ℕ, ◌≡◌, refl, Bool, true, false, not, ◌&&◌, ◌||◌, some, List, [], ◌∷◌, arith, ◌==◌, if◌then◌else◌,
  All,
}
use coffer_fs.Db.{Columns, Inode}
use coffer_fs.Db.Rows.{find_inode, update_inode, without_inode}

unfoldable pub has_inode : ℕ → List Inode → Bool
has_inode i [] = false
has_inode i (x ∷ xs) = x.ino == i || has_inode i xs

module _ (i : ℕ) (f : Columns → Columns) where
  pub has_inode-update_inode :
      (j : ℕ) (xs : List Inode) → has_inode j (update_inode i f xs) ≡ has_inode j xs
  unfolding has_inode update_inode
  has_inode-update_inode j [] = refl
  has_inode-update_inode j (x ∷ xs) = ground (arith, has_inode-update_inode j xs)

  pub find_inode-update_inode :
      (j : ℕ) (xs : List Inode)
      → find_inode j (update_inode i f xs)
        ≡ (if i == j then Option.map f (find_inode j xs) else find_inode j xs)
  unfolding find_inode update_inode
  find_inode-update_inode j [] = ground arith
  find_inode-update_inode j (x ∷ xs) = ground (arith, find_inode-update_inode j xs)

  -- What a predicate says of numbers alone, an UPDATE keeps.
  pub All-update_inode :
      (P : ℕ → Type 0) (xs : List Inode)
      → All (λ x. P x.ino) xs
      → All (λ x. P x.ino) (update_inode i f xs)
  unfolding update_inode
  All-update_inode P [] h = tt
  All-update_inode P (x ∷ xs) h = ground (arith, All-update_inode P xs h.1)

pub has_inode-find_inode :
    (i : ℕ) (xs : List Inode) (cols : Columns) → find_inode i xs ≡ some cols → has_inode i xs ≡ true
unfolding has_inode find_inode
has_inode-find_inode i [] cols h = cc
has_inode-find_inode i (x ∷ xs) cols h = ground (arith, has_inode-find_inode i xs cols)

pub has_inode-without_inode :
    (i j : ℕ) (xs : List Inode)
    → has_inode j (without_inode i xs) ≡ (not (i == j) && has_inode j xs)
unfolding has_inode
has_inode-without_inode i j [] = ground arith
has_inode-without_inode i j (x ∷ xs) = ground (arith, has_inode-without_inode i j xs)
