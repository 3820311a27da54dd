-- ===== src/Fs/Content/Truncating.antt =====
-- `truncate_inode` of src/fs.rs, where no statement fails.
use mathlib.Core.Option
use coffer_fs.Base.{
  ℕ, ◌/◌, ◌%◌, ◌≡◌, refl, ap, ◌∙◌, sym, not, ◌&&◌, List, [], arith, ltb, leb, ◌==◌, if◌then◌else◌,
  ok, take, keep, get_or-take, subst,
}
use coffer_fs.Db.{Db, Block, block_size}
use coffer_fs.Db.Rows.{find_block, without_block, find_inode}
use coffer_fs.Db.Blocks.{byte_at, find_block-keep, find_block-without_block}
use coffer_fs.Sql.{Conn}
use coffer_fs.Sql.Calm.{Calm}
use coffer_fs.Sql.Total.{
  Is, Succeeds, Succeeds-bind, Succeeds-query, Succeeds-execute, Succeeds-now_secs, Succeeds-given,
  Succeeds-if,
}
use coffer_fs.Fs.Schema.{get_block, put_block, stored}
use coffer_fs.Fs.Inodes.{set_columns, resized, truncate_inode, cut_last_block}
use coffer_fs.Fs.Content.Chunks.{find_block-stored}
use coffer_fs.Fs.Content.Effects.{size_of, size_of-update_inode}
use coffer_fs.Fs.Content.Succeeding.{finished}

module _ (ino n : ℕ) where
  -- The blocks up to the one with the new end.
  abbrev up_to : List Block → List Block
  up_to bs = keep (λ b. not (b.ino == ino && ltb (n / block_size) b.block_no)) bs

  abbrev cut : List Block → List Block
  cut bs =
      if ltb 0 (n % block_size)
      then stored ino (n / block_size)
          (take (n % block_size) (find_block ino (n / block_size) (up_to bs))) (up_to bs)
      else without_block ino (n / block_size) (up_to bs)

  find_block-up_to :
      (j m : ℕ) (bs : List Block)
      → find_block j m (up_to bs)
        ≡ (if j == ino && ltb (n / block_size) m then [] else find_block j m bs)
  find_block-up_to j m bs = find_block-keep (λ i k. i == ino && ltb (n / block_size) k) j m bs

  byte_at-cut :
      (bs : List Block) (j q : ℕ)
      → byte_at (cut bs) j q ≡ (if ino == j && leb n q then 0 else byte_at bs j q)
  unfolding byte_at
  byte_at-cut bs j q = ground (
    arith,
    find_block-stored ino (n / block_size)
        (take (n % block_size) (find_block ino (n / block_size) (up_to bs))) j (q / block_size)
        (up_to bs),
    find_block-without_block ino (n / block_size) j (q / block_size) (up_to bs),
    find_block-up_to j (q / block_size) bs,
    find_block-up_to ino (n / block_size) bs,
    get_or-take {A = ℕ} 0 (n % block_size) (find_block ino (n / block_size) bs) (q % block_size),
  )

  abbrev cut_db : Db → Db
  cut_db d = record d { blocks = cut d.blocks }

  abbrev up_to_db : Db → Db
  up_to_db d = record d { blocks = up_to d.blocks }

  cut_last_block-cut :
      (d : Db)
      → Succeeds
          (Is (up_to_db d))
          (cut_last_block ino (n / block_size) (n % block_size))
          (λ _. Is (cut_db d))
  unfolding get_block put_block
  cut_last_block-cut d =
      Succeeds-if (ltb 0 (n % block_size)) _ _
        (λ b.
          Succeeds-bind
            {Q = λ block db.
              Is (up_to_db d) db × (block ≡ find_block ino (n / block_size) (up_to d.blocks))}
            (Succeeds-query _ λ db e. (e, ap (λ x. find_block ino (n / block_size) x.blocks) e))
            λ block. Succeeds-given λ k. rw k (Succeeds-execute _ λ db e. ap kept e ∙ rw b refl))
        (λ b. Succeeds-execute _ λ db e. ap dropped e ∙ rw b refl)
    where
      kept : Db → Db
      kept db = record db {
        blocks =
            stored ino (n / block_size)
              (take (n % block_size) (find_block ino (n / block_size) (up_to d.blocks))) db.blocks;
      }

      dropped : Db → Db
      dropped db = record db { blocks = without_block ino (n / block_size) db.blocks }

-- After a truncation of file `ino` to `n` bytes.
pub record Truncated (ino n : ℕ) (d db : Db) : Type 0 where
  pub content :
      (j q : ℕ) → byte_at db.blocks j q ≡ (if ino == j && leb n q then 0 else byte_at d.blocks j q)
  pub sizes :
      (j : ℕ)
      → size_of j db.inodes
        ≡ (if ino == j then Option.map (λ cols. n) (find_inode j d.inodes) else size_of j d.inodes)
  pub names : db.dentries ≡ d.dentries

truncated :
    (ino n now : ℕ) (d : Db) → Truncated ino n d (set_columns ino (resized n now) (cut_db ino n d))
truncated ino n now d = record {
  content = byte_at-cut ino n d.blocks;
  sizes = λ j. size_of-update_inode ino (resized n now) j d.inodes;
  names = refl;
}

pub truncate_inode-Truncated :
    (ino n : ℕ) (d : Db)
    → Succeeds (Is d) (truncate_inode ino n) (λ r db. (r ≡ tt) × Truncated ino n d db)
unfolding truncate_inode
truncate_inode-Truncated ino n d =
    Succeeds-bind {Q = λ _. Is (up_to_db ino n d)}
      (Succeeds-execute _ λ db e. ap (up_to_db ino n) e)
      λ _. Succeeds-bind (cut_last_block-cut ino n d) λ _.
        Succeeds-bind {Q = λ _. Is (cut_db ino n d)} (Succeeds-now_secs λ t db e. e) λ now.
          Succeeds-execute _ λ db e. (
            refl,
            subst (Truncated ino n d) (sym (ap (set_columns ino (resized n now)) e))
                (truncated ino n now d),
          )

-- Where no statement fails, `truncate_inode` to `n` bytes succeeds: the bytes of the file below `n`
-- and those of all other files are as before, and from `n` on the file holds zeros only, so that
-- nothing old comes back when it grows again. Its size is `n`, other sizes and all names stay.
pub truncate_inode_lem :
    (ino n : ℕ) (c : Conn)
    → Calm c
    → ((truncate_inode ino n c).0 ≡ ok tt) × Truncated ino n c.db (truncate_inode ino n c).1.db
truncate_inode_lem ino n c calm =
    finished tt (Truncated ino n c.db) (truncate_inode ino n c).0 (truncate_inode ino n c).1
      ((truncate_inode-Truncated ino n c.db).at c calm refl)
