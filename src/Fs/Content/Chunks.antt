-- ===== src/Fs/Content/Chunks.antt =====
-- One round of the loops of `read` and `write`: what a chunk is of the file's bytes.
use coffer_fs.Base.{
  ℕ, ◌+◌, ◌-◌, ◌/◌, ◌%◌, ◌≤◌, ◌<◌, min, ◌≡◌, ap, ◌∙◌, sym, ◌&&◌, List, [], ◌∷◌, arith, ltb, leb,
  ◌==◌, if◌then◌else◌, byte, length, take, drop, replicate, tabulate, grow, byte-grow, length-grow,
  byte-splice, get_or-drop, length-drop, tabulate_ext, length-take, get_or-take, get_or-append,
  get_or-replicate, get_or_beyond, length-append, length-replicate, tabulate-get_or,
}
use coffer_fs.Db.{Block, block_size}
use coffer_fs.Db.Rows.{find_block}
use coffer_fs.Db.Blocks.{byte_at, find_block-set_block, find_block-without_block, same_block}
use coffer_fs.Fs.Schema.{stored}
use coffer_fs.Fs.Content.Loops.{read_chunk, chunk_at, patch}

length-read_chunk : (block : List ℕ) (off len : ℕ) → length (read_chunk block off len) ≡ len
unfolding read_chunk
length-read_chunk block off len = ground (
  arith,
  length-append (take (min len (length block - off)) (drop off block))
      (replicate {A = ℕ} (len - min len (length block - off)) 0),
  length-take (min len (length block - off)) (drop off block),
  length-drop off block,
  length-replicate {A = ℕ} (len - min len (length block - off)) 0,
  length-replicate {A = ℕ} len 0,
)

byte-read_chunk :
    (block : List ℕ) (off len k : ℕ)
    → k < len
    → byte (read_chunk block off len) k ≡ byte block (off + k)
unfolding read_chunk
byte-read_chunk block off len k h = ground (
  arith,
  get_or-append {A = ℕ} 0 (take (min len (length block - off)) (drop off block))
      (replicate {A = ℕ} (len - min len (length block - off)) 0) k,
  length-take (min len (length block - off)) (drop off block),
  length-drop off block,
  get_or-take {A = ℕ} 0 (min len (length block - off)) (drop off block) k,
  get_or-drop {A = ℕ} 0 off block k,
  get_or-replicate {A = ℕ} 0 (len - min len (length block - off))
      (k - min (min len (length block - off)) (length block - off)),
  get_or-replicate {A = ℕ} 0 len k,
  get_or_beyond {A = ℕ} 0 block (off + k),
)

-- A list is given by its length and its bytes.
tabulate_of :
    (xs : List ℕ) (n : ℕ) (f : ℕ → ℕ)
    → length xs ≡ n
    → ((k : ℕ) → k < n → byte xs k ≡ f k)
    → xs ≡ tabulate n f
tabulate_of xs n f e h =
    sym (tabulate-get_or xs 0) ∙ ap (λ m. tabulate m (byte xs)) e ∙ tabulate_ext n (byte xs) f h

-- The chunk at `pos` is the file's bytes from `pos` on.
pub read_chunk-byte_at :
    (bs : List Block) (ino pos stop : ℕ)
    → read_chunk (find_block ino (pos / block_size) bs) (pos % block_size) (chunk_at pos stop)
      ≡ tabulate (chunk_at pos stop) (λ k. byte_at bs ino (pos + k))
unfolding byte_at chunk_at
read_chunk-byte_at bs ino pos stop =
    tabulate_of _ _ _ (length-read_chunk block (pos % block_size) (chunk_at pos stop))
      λ k h. byte-read_chunk block (pos % block_size) (chunk_at pos stop) k h ∙ one_block k h
  where
    block : List ℕ
    block = find_block ino (pos / block_size) bs

    one_block :
        (k : ℕ)
        → k < chunk_at pos stop
        → byte block (pos % block_size + k) ≡ byte_at bs ino (pos + k)
    one_block k h = ground arith

pub byte-patch :
    (buf : List ℕ) (off : ℕ) (chunk : List ℕ) (i : ℕ)
    → byte (patch buf off chunk) i
      ≡ (if leb off i && ltb i (off + length chunk) then byte chunk (i - off) else byte buf i)
unfolding patch
byte-patch buf off chunk i = ground (
  arith,
  byte-splice (grow buf (off + length chunk)) off chunk i,
  length-grow buf (off + length chunk),
  byte-grow buf (off + length chunk) i,
)

-- Byte `q` of file `j`, where `bytes` stand from `pos` on in file `ino`, and `old` elsewhere.
abbrev pub cover : ℕ → ℕ → List ℕ → ℕ → ℕ → ℕ → ℕ
cover ino pos bytes j q old =
    if ino == j && (leb pos q && ltb q (pos + length bytes)) then byte bytes (q - pos) else old

abbrev pub overlay : ℕ → ℕ → List ℕ → (ℕ → ℕ → ℕ) → ℕ → ℕ → ℕ
overlay ino pos bytes old j q = cover ino pos bytes j q (old j q)

pub find_block-stored :
    (i n : ℕ) (content : List ℕ) (j m : ℕ) (bs : List Block)
    → find_block j m (stored i n content bs)
      ≡ (if same_block i n j m then content else find_block j m bs)
find_block-stored i n [] j m bs = find_block-without_block i n j m bs
find_block-stored i n (x ∷ xs) j m bs = find_block-set_block i n (x ∷ xs) j m bs

-- One round of `write` changes the bytes that it covers.
pub byte_at-stored :
    (bs : List Block) (ino pos : ℕ) (chunk : List ℕ) (j q : ℕ)
    → pos % block_size + length chunk ≤ block_size
    → byte_at
        (stored ino
          (pos / block_size)
          (patch (find_block ino (pos / block_size) bs) (pos % block_size) chunk)
          bs)
        j
        q
      ≡ overlay ino pos chunk (byte_at bs) j q
unfolding byte_at
byte_at-stored bs ino pos chunk j q h = ground (
  arith,
  find_block-stored ino (pos / block_size)
      (patch (find_block ino (pos / block_size) bs) (pos % block_size) chunk) j (q / block_size) bs,
  byte-patch (find_block ino (pos / block_size) bs) (pos % block_size) chunk (q % block_size),
)

-- What is written in two parts is written as one.
pub overlay-take-drop :
    (ino pos n : ℕ) (bytes : List ℕ) (old : ℕ → ℕ → ℕ) (j q : ℕ)
    → n ≤ length bytes
    → overlay ino (pos + n) (drop n bytes) (overlay ino pos (take n bytes) old) j q
      ≡ overlay ino pos bytes old j q
overlay-take-drop ino pos n bytes old j q h = ground (
  arith,
  length-take n bytes,
  length-drop n bytes,
  get_or-take {A = ℕ} 0 n bytes (q - pos),
  get_or-drop {A = ℕ} 0 n bytes (q - (pos + n)),
)
