-- ===== src/Db/Blocks.antt =====
-- The table `data`: what a file's bytes are, and the blocks under the statements on them.
use coffer_fs.Base.{
  ℕ, ◌/◌, ◌%◌, ◌≡◌, Bool, not, ◌&&◌, List, [], ◌∷◌, arith, ◌==◌, if◌then◌else◌, keep, byte,
}
use coffer_fs.Db.{Block, block_size}
use coffer_fs.Db.Rows.{is_block, find_block, without_block, set_block}

-- Byte `pos` of file `ino`: what is not stored is zero.
unfoldable pub byte_at : List Block → ℕ → ℕ → ℕ
byte_at bs ino pos = byte (find_block ino (pos / block_size) bs) (pos % block_size)

abbrev pub same_block : ℕ → ℕ → ℕ → ℕ → Bool
same_block i n j m = i == j && n == m

pub find_block-set_block :
    (i n : ℕ) (content : List ℕ) (j m : ℕ) (bs : List Block)
    → find_block j m (set_block i n content bs)
      ≡ (if same_block i n j m then content else find_block j m bs)
unfolding find_block set_block is_block
find_block-set_block i n content j m [] = ground arith
find_block-set_block i n content j m (b ∷ bs) =
    ground (arith, find_block-set_block i n content j m bs)

pub find_block-without_block :
    (i n j m : ℕ) (bs : List Block)
    → find_block j m (without_block i n bs) ≡ (if same_block i n j m then [] else find_block j m bs)
unfolding find_block is_block
find_block-without_block i n j m [] = ground arith
find_block-without_block i n j m (b ∷ bs) = ground (arith, find_block-without_block i n j m bs)

-- A DELETE by any test on the key.
pub find_block-keep :
    (p : ℕ → ℕ → Bool) (j m : ℕ) (bs : List Block)
    → find_block j m (keep (λ b. not (p b.ino b.block_no)) bs)
      ≡ (if p j m then [] else find_block j m bs)
unfolding find_block is_block
find_block-keep p j m [] = ground arith
find_block-keep p j m (b ∷ bs) = ground (arith, find_block-keep p j m bs)
