-- ===== src/Fs/Content/Writing.antt =====
-- `write` of src/fs.rs puts its bytes into the file and leaves every other byte.
use coffer_fs.Base.{
  ℕ, zero, suc, ◌+◌, ◌-◌, ◌/◌, ◌%◌, ◌≤◌, min, ◌≡◌, ap, ◌∙◌, sym, List, [], ◌∷◌, arith, length, take,
  drop, length-take, length-drop,
}
use coffer_fs.Db.{Block, block_size, Db}
use coffer_fs.Db.Rows.{find_block}
use coffer_fs.Db.Blocks.{byte_at}
use coffer_fs.Sql.{always_eio}
use coffer_fs.Sql.Rules.{
  Ensures, Ensures-pure, Ensures-bind, Ensures-map_err, Ensures-query, Ensures-statement,
  Ensures-post,
}
use coffer_fs.Fs.Schema.{get_block, put_block, stored}
use coffer_fs.Fs.Attr.{errno_for}
use coffer_fs.Fs.Content.Loops.{write_loop, patch}
use coffer_fs.Fs.Content.Chunks.{cover, overlay, byte_at-stored, overlay-take-drop}

-- The file's bytes are those of `old`, with `bytes` from `pos` on.
abbrev pub Written : ℕ → ℕ → List ℕ → List Block → Db → Type 0
Written ino pos bytes old db =
    (j q : ℕ) → byte_at db.blocks j q ≡ overlay ino pos bytes (byte_at old) j q

module _ (ino pos : ℕ) (bytes : List ℕ) where
  abbrev count : ℕ
  count = min (block_size - pos % block_size) (length bytes)

  abbrev after_round : List Block → List Block
  after_round d =
      stored ino (pos / block_size)
        (patch (find_block ino (pos / block_size) d) (pos % block_size) (take count bytes)) d

  -- One round, then the others.
  rounds :
      (d : List Block) (j q : ℕ)
      → overlay ino (pos + count) (drop count bytes) (byte_at (after_round d)) j q
        ≡ overlay ino pos bytes (byte_at d) j q
  rounds d j q =
      ap (cover ino (pos + count) (drop count bytes) j q)
        (byte_at-stored d ino pos (take count bytes) j q (omega (arith, length-take count bytes)))
      ∙ overlay-take-drop ino pos count bytes (byte_at d) j q (omega arith)

pub write_loop_lem :
    (fuel ino pos : ℕ) (bytes : List ℕ) (d : List Block)
    → length bytes ≤ fuel
    → Ensures (λ db. db.blocks ≡ d) (write_loop fuel ino pos bytes) (λ _. Written ino pos bytes d)
unfolding write_loop get_block put_block
write_loop_lem fuel ino pos [] d h =
    Ensures-pure tt λ db e j q. ap (λ bs. byte_at bs j q) e ∙ ground arith
write_loop_lem zero ino pos (x ∷ xs) d h = absurd (omega arith)
write_loop_lem (suc fuel) ino pos (x ∷ xs) d h =
    Ensures-bind
      {Q = λ buf db. (db.blocks ≡ d) × (find_block ino (pos / block_size) db.blocks ≡ buf)}
      (Ensures-map_err always_eio (Ensures-query _))
      λ buf.
        Ensures-bind {Q = λ _ db. db.blocks ≡ after_round ino pos (x ∷ xs) d}
          (Ensures-map_err errno_for (Ensures-statement _ λ db e. put buf db e.0 e.1))
          λ _.
            Ensures-post (λ _ db w j q. w j q ∙ rounds ino pos (x ∷ xs) d j q)
              (write_loop_lem fuel ino (pos + n) (drop n (x ∷ xs)) (after_round ino pos (x ∷ xs) d)
                (omega (arith, length-drop n (x ∷ xs))))
  where
    n : ℕ
    n = count ino pos (x ∷ xs)

    put :
        (buf : List ℕ) (db : Db)
        → db.blocks ≡ d
        → find_block ino (pos / block_size) db.blocks ≡ buf
        → stored ino (pos / block_size) (patch buf (pos % block_size) (take n (x ∷ xs))) db.blocks
          ≡ after_round ino pos (x ∷ xs) d
    put buf db e f =
        ap
          (λ b.
            stored ino (pos / block_size) (patch b (pos % block_size) (take n (x ∷ xs))) db.blocks)
          (sym f)
        ∙ ap (after_round ino pos (x ∷ xs)) e
