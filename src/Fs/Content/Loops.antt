-- ===== src/Fs/Content/Loops.antt =====
-- The loops of `read` and `write` in src/fs.rs, over the blocks of one file. Each round handles at
-- least one byte, so as much fuel as there are bytes is enough.
use coffer_fs.Base.{
  ℕ, zero, suc, ◌+◌, ◌-◌, ◌/◌, ◌%◌, min, List, [], ◌∷◌, ◌++◌, Result, ok, err, ltb, if◌then◌else◌,
  length, take, drop, replicate, grow, splice,
}
use coffer_fs.Db.{block_size}
use coffer_fs.Sql.{SqlError, Errno, Run, pure, ◌>>=◌, ◌>>◌, map_err, always_eio, attempt}
use coffer_fs.Fs.Schema.{get_block, put_block}
use coffer_fs.Fs.Attr.{errno_for}

-- The bytes that one block contributes: what it holds, then zeros.
unfoldable pub read_chunk : List ℕ → ℕ → ℕ → List ℕ
read_chunk block block_off chunk_len =
    if ltb block_off (length block)
    then (let avail = min chunk_len (length block - block_off) in
        take avail (drop block_off block) ++ replicate (chunk_len - avail) 0)
    else replicate chunk_len 0

-- `unwrap_or_default`: a block that cannot be read is empty.
abbrev pub or_default : Result SqlError (List ℕ) → List ℕ
or_default (ok block) = block
or_default (err e) = []

unfoldable pub chunk_at : ℕ → ℕ → ℕ
chunk_at pos stop = min (block_size - pos % block_size) (stop - pos)

unfoldable pub read_loop : ℕ → ℕ → ℕ → ℕ → List ℕ → Run Errno (List ℕ)
read_loop zero ino pos stop out = pure out
read_loop (suc fuel) ino pos stop out =
    let rest : Run Errno (List ℕ) = (do
      got ← attempt (get_block ino (pos / block_size))
      let chunk_len = chunk_at pos stop
      let chunk = read_chunk (or_default got) (pos % block_size) chunk_len
      read_loop fuel ino (pos + chunk_len) stop (out ++ chunk)) in
    if ltb pos stop then rest else pure out

-- One block with `chunk` written at `block_off`.
unfoldable pub patch : List ℕ → ℕ → List ℕ → List ℕ
patch buf block_off chunk = splice (grow buf (block_off + length chunk)) block_off chunk

unfoldable pub write_loop : ℕ → ℕ → ℕ → List ℕ → Run Errno (Unit {0})
write_loop fuel ino pos [] = pure tt
write_loop zero ino pos (x ∷ xs) = pure tt
write_loop (suc fuel) ino pos (x ∷ xs) = do
  let block_no = pos / block_size
  let block_off = pos % block_size
  let count = min (block_size - block_off) (length (x ∷ xs))
  buf ← map_err always_eio (get_block ino block_no)
  map_err errno_for (put_block ino block_no (patch buf block_off (take count (x ∷ xs))))
  write_loop fuel ino (pos + count) (drop count (x ∷ xs))
